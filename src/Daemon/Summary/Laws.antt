-- ===== src/Daemon/Summary/Laws.antt =====
-- What `extractSummary` keeps of a log.
use openenvx_cloud.Prelude.{
  ℕ, zero, suc, ◌-◌, ◌≤◌, ◌≡◌, refl, sym, ap, ◌∙◌, List, [], ◌∷◌, ◌++◌, Bool-cases, inl, inr, arith,
  nat_eq, ltb, length, if◌then◌else◌, ◌+◌, ◌<◌, ◌⊎◌, subst, false,
}
use mathlib.Core.List.{append_assoc}
use openenvx_cloud.Models.{Bytes}
use openenvx_cloud.Daemon.Summary.{
  newline, add_byte, split, join, drop, max_lines, max_bytes, last_lines, extract_summary,
}

-- A split text has a line.
split-cons : (log : Bytes) → (l : Bytes) × (ls : List Bytes) × (split log ≡ l ∷ ls)
unfolding split
split-cons [] = ([], [], refl)
split-cons (c ∷ cs) = elim (Bool-cases (nat_eq c newline)) [
  | inl e ↦ ([], split cs, rw e refl)
  | inr e ↦ let (l, ls, q) = split-cons cs in (c ∷ l, ls, rw e (rw (q, add_byte) refl))
]

join-add_byte :
    (c : ℕ) (l : Bytes) (ls : List Bytes) → join (add_byte c (l ∷ ls)) ≡ c ∷ join (l ∷ ls)
unfolding join add_byte
join-add_byte c l [] = refl
join-add_byte c l (m ∷ ls) = refl

-- Joining the lines into which a log is split, with a newline between two, gives the log.
join-split : (log : Bytes) → join (split log) ≡ log
unfolding split join
join-split [] = refl
join-split (c ∷ cs) =
    let (l, ls, q) = split-cons cs in
    let ih : join (l ∷ ls) ≡ cs = ap join (sym q) ∙ join-split cs in
    elim (Bool-cases (nat_eq c newline)) [
      | inl e ↦ rw e (rw q (ground (arith, ih)))
      | inr e ↦ rw e (rw q (join-add_byte c l ls ∙ ap (◌∷◌ c) ih))
    ]

-- How often a newline stands in a text.
unfoldable pub newlines : Bytes → ℕ
newlines [] = 0
newlines (c ∷ cs) = let rest = newlines cs in if nat_eq c newline then suc rest else rest

newlines-append : (a b : Bytes) → newlines (a ++ b) ≡ newlines a + newlines b
unfolding newlines
newlines-append [] b = omega arith
newlines-append (c ∷ a) b = ground (arith, newlines-append a b)

-- No line has a newline in it.
abbrev ArePlain : List Bytes → Type 0
ArePlain [] = Unit {0}
ArePlain (l ∷ ls) = (newlines l ≡ 0) × ArePlain ls

add_byte-ArePlain :
    (c : ℕ) (l : Bytes) (ls : List Bytes)
    → nat_eq c newline ≡ false
    → ArePlain (l ∷ ls)
    → ArePlain (add_byte c (l ∷ ls))
unfolding add_byte newlines
add_byte-ArePlain c l ls e (p, ps) = (rw e p, ps)

split-ArePlain : (log : Bytes) → ArePlain (split log)
unfolding split newlines
split-ArePlain [] = (refl, tt)
split-ArePlain (c ∷ cs) =
    let (l, ls, q) = split-cons cs in
    elim (Bool-cases (nat_eq c newline)) [
      | inl e ↦ rw e (refl, split-ArePlain cs)
      | inr e ↦ rw (e, q) (add_byte-ArePlain c l ls e (subst ArePlain q (split-ArePlain cs)))
    ]

drop-ArePlain : (n : ℕ) (ls : List Bytes) → ArePlain ls → ArePlain (drop n ls)
unfolding drop
drop-ArePlain zero ls p = p
drop-ArePlain (suc n) [] p = tt
drop-ArePlain (suc n) (l ∷ ls) (p, ps) = drop-ArePlain n ls ps

-- There is a newline between two lines.
newlines-join : (ls : List Bytes) → ArePlain ls → newlines (join ls) ≡ length ls - 1
unfolding newlines join
newlines-join [] p = refl
newlines-join (l ∷ []) (p, ps) = p
newlines-join (l ∷ m ∷ ls) (p, ps) =
    newlines-append l (newline ∷ join (m ∷ ls)) ∙ omega (arith, p, newlines-join (m ∷ ls) ps)

length-append {ℓ} : {A : Type ℓ} (xs ys : List A) → length (xs ++ ys) ≡ length xs + length ys
length-append [] ys = omega arith
length-append (x ∷ xs) ys = omega (arith, length-append xs ys)

length-drop {ℓ} : {A : Type ℓ} (n : ℕ) (xs : List A) → length (drop n xs) ≡ length xs - n
unfolding drop
length-drop zero xs = omega arith
length-drop (suc n) [] = omega arith
length-drop (suc n) (x ∷ xs) = omega (arith, length-drop n xs)

drop-prefix : (n : ℕ) (xs : Bytes) → (before : Bytes) × (xs ≡ before ++ drop n xs)
unfolding drop
drop-prefix zero xs = ([], refl)
drop-prefix (suc n) [] = ([], refl)
drop-prefix (suc n) (x ∷ xs) = let (b, e) = drop-prefix n xs in (x ∷ b, ap (◌∷◌ x) e)

-- What stands before the lines that are left ends with a newline.
join-drop :
    (n : ℕ) (l : Bytes) (ls : List Bytes)
    → suc n ≤ length ls
    → (b : Bytes) × (join (l ∷ ls) ≡ (b ++ newline ∷ []) ++ join (drop (suc n) (l ∷ ls)))
unfolding join drop
join-drop n l [] h = absurd (omega (arith, h))
join-drop zero l (m ∷ ls) h = (l, sym (append_assoc l (newline ∷ []) (join (m ∷ ls))))
join-drop (suc n) l (m ∷ ls) h =
    let (b, e) = join-drop n m ls (omega (arith, h)) in
    (
      l ++ newline ∷ b,
      ap (λ x. l ++ newline ∷ x) e
          ∙ sym (append_assoc l (newline ∷ (b ++ newline ∷ [])) _)
          ∙ ap (λ x. x ++ join (drop (suc n) (m ∷ ls)))
              (sym (append_assoc l (newline ∷ b) (newline ∷ []))),
    )

-- The last fifty lines: all of the log, or what follows a newline.
abbrev pub IsLastLines : Bytes → Bytes → Type 0
IsLastLines before s =
    ((before ≡ []) × (newlines s ≤ 49))
    ⊎ ((b : Bytes) × (before ≡ b ++ 10 ∷ []) × (newlines s ≡ 49))

join-last :
    (log l : Bytes) (ls : List Bytes)
    → join (l ∷ ls) ≡ log
    → ArePlain (l ∷ ls)
    → let s = join (drop (length (l ∷ ls) - max_lines) (l ∷ ls)) in
      (before : Bytes) × (log ≡ before ++ s) × IsLastLines before s
unfolding drop
join-last log l ls whole plain = elim (Bool-cases (ltb 49 (length ls))) [
  | inr e ↦
      let few : length ls ≤ 49 = ground (arith, e) in
      let n : length (l ∷ ls) - max_lines ≡ 0 = omega (arith, few) in
      rw n ([], sym whole, inl (refl, omega (arith, few, newlines-join (l ∷ ls) plain)))
  | inl e ↦
      let many : 50 ≤ length ls = ground (arith, e) in
      let n : length (l ∷ ls) - max_lines ≡ suc (length ls - 50) = omega (arith, many) in
      let (b, c) = join-drop (length ls - 50) l ls (omega (arith, many)) in
      rw n (
        b ++ newline ∷ [],
        sym whole ∙ c,
        inr (
          b,
          refl,
          newlines-join _ (drop-ArePlain (suc (length ls - 50)) (l ∷ ls) plain)
              ∙ omega (arith, many, length-drop (suc (length ls - 50)) (l ∷ ls)),
        ),
      )
]

last_lines_lem :
    (log : Bytes)
    → (before : Bytes) × (log ≡ before ++ last_lines log) × IsLastLines before (last_lines log)
unfolding last_lines
last_lines_lem log =
    let (l, ls, q) = split-cons log in
    let whole : join (l ∷ ls) ≡ log = ap join (sym q) ∙ join-split log in
    let plain : ArePlain (l ∷ ls) = subst ArePlain q (split-ArePlain log) in
    rw q (join-last log l ls whole plain)

-- The summary of a log is the end of its last fifty lines: all of them, if that is at most 4000 bytes,
-- and otherwise their last 4000 bytes.
pub extract_summary_lem :
    (log : Bytes)
    → (before : Bytes) × (cut : Bytes) × (log ≡ before ++ (cut ++ extract_summary log))
      × IsLastLines before (cut ++ extract_summary log)
      × (((cut ≡ []) × (length (extract_summary log) ≤ 4000))
          ⊎ ((1 ≤ length cut) × (length (extract_summary log) ≡ 4000)))
unfolding extract_summary
extract_summary_lem log =
    let s = last_lines log in
    let (b, e, lines) = last_lines_lem log in
    elim (Bool-cases (ltb max_bytes (length s))) [
      | inr h ↦ rw h (b, [], e, lines, inl (refl, ground (arith, h)))
      | inl h ↦
          let long : 4000 < length s = ground (arith, h) in
          let (c, q) = drop-prefix (length s - max_bytes) s in
          let size = length-drop (length s - max_bytes) s in
          rw h (
            b,
            c,
            e ∙ ap (◌++◌ b) q,
            subst (IsLastLines b) q lines,
            inr (
              omega
                  (arith, long, size, ap length q, length-append c (drop (length s - max_bytes) s)),
              omega (arith, long, size),
            ),
          )
    ]
