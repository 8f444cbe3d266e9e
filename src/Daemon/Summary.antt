-- ===== src/Daemon/Summary.antt =====
-- internal/daemon/worker.go: `extractSummary`, the end of a job's log that is kept in its row.
pub mod Laws
use openenvx_cloud.Prelude.{
  ℕ, zero, suc, ◌-◌, List, [], ◌∷◌, ◌++◌, nat_eq, ltb, length, if◌then◌else◌,
}
use openenvx_cloud.Models.{Bytes}

abbrev pub newline : ℕ
newline = 10

unfoldable pub add_byte : ℕ → List Bytes → List Bytes
add_byte c [] = (c ∷ []) ∷ []
add_byte c (l ∷ ls) = (c ∷ l) ∷ ls

-- bytes.Split(logData, []byte("\n"))
unfoldable pub split : Bytes → List Bytes
unfolding add_byte
split [] = [] ∷ []
split (c ∷ cs) = let rest = split cs in if nat_eq c newline then [] ∷ rest else add_byte c rest

-- bytes.Join(lines, []byte("\n"))
unfoldable pub join : List Bytes → Bytes
join [] = []
join (l ∷ []) = l
join (l ∷ m ∷ ls) = l ++ (newline ∷ join (m ∷ ls))

-- s[start:]
unfoldable pub drop {ℓ} : {A : Type ℓ} → ℕ → List A → List A
drop zero xs = xs
drop (suc n) [] = []
drop (suc n) (x ∷ xs) = drop n xs

abbrev pub max_lines : ℕ
max_lines = 50

abbrev pub max_bytes : ℕ
max_bytes = 4000

-- `len(lines) - 50` below 0 is set to 0, as `-` on ℕ is.
unfoldable pub last_lines : Bytes → Bytes
unfolding split join drop
last_lines log = let lines = split log in join (drop (length lines - max_lines) lines)

unfoldable pub extract_summary : Bytes → Bytes
unfolding last_lines drop
extract_summary log =
    let summary = last_lines log in
    if ltb max_bytes (length summary) then drop (length summary - max_bytes) summary else summary
