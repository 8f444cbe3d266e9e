-- ===== src/Api/Stream/Lines.antt =====
-- Lists of lines: those a client was told of, against those published.
use mathlib.Core.List.Sublistᴰ
use mathlib.Core.List.{Sublistᴰ, append_assoc, append-nil}
use openenvx_cloud.Prelude.{
  ◌+◌, ◌≤◌, ◌≡◌, refl, sym, ap, subst, ◌⊎◌, inl, inr, List, [], ◌∷◌, ◌++◌, map, length, arith,
  Bool-cases, ltb,
}
use openenvx_cloud.Models.{Bytes}
use openenvx_cloud.Broker.{Channel, capacity, offer}
use openenvx_cloud.Api.Stream.{frame}

pub Sublist_prefix : (ks ms ls : List Bytes) → Sublistᴰ (ks ++ ms) ls → Sublistᴰ ks ls
Sublist_prefix ks ms ls s =
    Sublistᴰ.trans
      (subst (λ xs. Sublistᴰ xs (ks ++ ms)) (append-nil ks)
        (Sublistᴰ.append (Sublistᴰ.refl ks) (Sublistᴰ.nil-sublist ms)))
      s

pub buffer_cases :
    (ls : List Bytes) → (ls ≡ []) ⊎ ((line : Bytes) × (rest : List Bytes) × (ls ≡ line ∷ rest))
buffer_cases [] = inl refl
buffer_cases (l ∷ ls) = inr (l, ls, refl)

pub within :
    {got ls all : List Bytes} (buffer more : List Bytes)
    → all ≡ ls ++ more
    → Sublistᴰ (got ++ buffer) ls
    → Sublistᴰ got all
within {got} {ls} buffer more p sub = subst (Sublistᴰ got) (sym p) (
    subst (λ xs. Sublistᴰ xs (ls ++ more)) (append-nil got)
      (Sublistᴰ.append (Sublist_prefix got buffer ls sub) (Sublistᴰ.nil-sublist more)))

pub map-append_one :
    (ks : List Bytes) (l : Bytes) → map frame (ks ++ l ∷ []) ≡ map frame ks ++ frame l ∷ []
map-append_one [] l = refl
map-append_one (k ∷ ks) l = ap (λ r. frame k ∷ r) (map-append_one ks l)

pub length-append : (ks ls : List Bytes) → length (ks ++ ls) ≡ length ks + length ls
length-append [] ls = omega arith
length-append (k ∷ ks) ls = omega (arith, length-append ks ls)

-- The lines that are in the channel or were received, against those published.
abbrev pub Told : List Bytes → List Bytes → Type 0
Told ks ls = Sublistᴰ ks ls × (length ls ≤ capacity → ks ≡ ls)

-- A line published with the channel as it was.
pub Told-offer :
    (got : List Bytes) (ls : List Bytes) (line : Bytes) (ch : Channel)
    → Told (got ++ ch.buffer) ls
    → Told (got ++ (offer line ch).buffer) (ls ++ line ∷ [])
unfolding offer
Told-offer got ls line ch (some_of, all) = elim (Bool-cases (ltb (length ch.buffer) capacity)) [
  | inl e ↦
      rw (e, sym (append_assoc got ch.buffer (line ∷ [])))
        (
          Sublistᴰ.append some_of (Sublistᴰ.refl (line ∷ [])),
          λ h. ap (λ r. r ++ line ∷ []) (all (omega (arith, h, length-append ls (line ∷ [])))),
        )
  | inr e ↦ rw e (
    subst (λ xs. Sublistᴰ xs (ls ++ line ∷ [])) (append-nil (got ++ ch.buffer))
        (Sublistᴰ.append some_of (Sublistᴰ.nil-sublist (line ∷ []))),
    λ h. absurd (
        ground (
          arith,
          length-append ls (line ∷ []),
          length-append got ch.buffer,
          ap length (all (omega (arith, h, length-append ls (line ∷ [])))),
        )),
  )
]
