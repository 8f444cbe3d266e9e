-- ===== src/Broker/Sound.antt =====
-- internal/pubsub/broker.go: what is kept between the methods, in terms of the channels that the map
-- lists.
use openenvx_cloud.Prelude.{
  ℕ, ◌≤◌, ◌<◌, ◌≡◌, refl, sym, subst, ◌∙◌, ◌⊎◌, inl, inr, String, Bool, true, false, List, [], ◌∷◌,
  ◌++◌, Option, nat_eq, any, length, arith, Bool-cases, ◌==◌, eq_iff,
}
use openenvx_cloud.Broker.{
  Channel, Broker, capacity, new_broker, subscribers_of, listed, set_subscribers, set_channel,
  without, or_deleted,
}

abbrev pub has : ℕ → List ℕ → Bool
has c cs = any (nat_eq c) cs

-- No channel stands twice in the list.
abbrev pub NoRepeats : List ℕ → Type 0
NoRepeats [] = Unit
NoRepeats (c ∷ cs) = (has c cs ≡ false) × NoRepeats cs

-- Each channel in the map was made, is open, and stands there once.
pub record IsSound (b : Broker) : Type 0 where
  pub is_open :
      (j : String) (c : ℕ) → has c (subscribers_of b j) ≡ true → (b.channels c).closed ≡ false
  pub was_made : (j : String) (c : ℕ) → has c (subscribers_of b j) ≡ true → c < b.made
  pub once : (j : String) → NoRepeats (subscribers_of b j)
  pub one_job :
      (j k : String) (c : ℕ)
      → has c (subscribers_of b j) ≡ true
      → has c (subscribers_of b k) ≡ true
      → j ≡ k
  pub bounded : (c : ℕ) → length (b.channels c).buffer ≤ capacity

pub clash : ¬ (true ≡ false)
clash e = cc

pub has-append : (c x : ℕ) (cs : List ℕ) → has c (cs ++ x ∷ []) ≡ true → (has c cs ≡ true) ⊎ (c ≡ x)
unfolding any
has-append c x [] h = inr (ground arith)
has-append c x (y ∷ ys) h = elim (Bool-cases (nat_eq c y)) [
  | inl e ↦ inl (rw e refl)
  | inr e ↦ rw e (has-append c x ys (rw e at h))
]

pub NoRepeats-append :
    (x : ℕ) (cs : List ℕ) → has x cs ≡ false → NoRepeats cs → NoRepeats (cs ++ x ∷ [])
unfolding any
NoRepeats-append x [] h n = (refl, tt)
NoRepeats-append x (c ∷ cs) h (f, n) = elim (Bool-cases (has c (cs ++ x ∷ []))) [
  | inl e ↦ elim (has-append c x cs e) [ inl g ↦ cc | inr g ↦ absurd (ground arith) ]
  | inr e ↦ (e, NoRepeats-append x cs (ground arith) n)
]

pub has-without : (c x : ℕ) (cs : List ℕ) → has c (without x cs) ≡ true → has c cs ≡ true
unfolding any without
has-without c x [] h = h
has-without c x (y ∷ ys) h = ground (arith, has-without c x ys)

pub without-gone : (c : ℕ) (cs : List ℕ) → NoRepeats cs → has c (without c cs) ≡ false
unfolding any without
without-gone c [] n = refl
without-gone c (x ∷ xs) (f, n) = elim (Bool-cases (nat_eq c x)) [
  | inl e ↦ let q : c ≡ x = ground arith in rw e (subst (λ y. has y xs ≡ false) (sym q) f)
  | inr e ↦ rw e (rw e (without-gone c xs n))
]

pub NoRepeats-without : (c : ℕ) (cs : List ℕ) → NoRepeats cs → NoRepeats (without c cs)
unfolding any without
NoRepeats-without c [] n = tt
NoRepeats-without c (x ∷ xs) (f, n) = elim (Bool-cases (nat_eq c x)) [
  | inl e ↦ rw e n
  | inr e ↦ rw e (kept, NoRepeats-without c xs n)
]
  where
    kept : has x (without c xs) ≡ false
    kept = elim (Bool-cases (has x (without c xs))) [
      | inl g ↦ absurd (clash (sym (has-without x c xs g) ∙ f))
      | inr g ↦ g
    ]

pub listed-or_deleted : (cs : List ℕ) → listed (or_deleted cs) ≡ cs
listed-or_deleted [] = refl
listed-or_deleted (c ∷ cs) = refl

-- The subscribers of each job after the map is set at one key.
pub set_subscribers-cases :
    (k : String) (v : Option (List ℕ)) (b : Broker) (j : String)
    → ((j ≡ k) × (subscribers_of (set_subscribers k v b) j ≡ listed v))
      ⊎ (¬ (j ≡ k) × (subscribers_of (set_subscribers k v b) j ≡ subscribers_of b j))
set_subscribers-cases k v b j = elim (Bool-cases (j == k)) [
  | inl e ↦ inl ((eq_iff j k).0 e, rw e refl)
  | inr e ↦ inr (λ q. clash (sym ((eq_iff j k).1 q) ∙ e), rw e refl)
]

-- A map that lists less at one key is sound.
pub set_subscribers-IsSound :
    (k : String) (v : Option (List ℕ)) (b : Broker)
    → ((c : ℕ) → has c (listed v) ≡ true → has c (subscribers_of b k) ≡ true)
    → NoRepeats (listed v)
    → IsSound b
    → IsSound (set_subscribers k v b)
set_subscribers-IsSound k v b less n s = record {
  is_open = λ j c h. s.is_open j c (before j c h);
  was_made = λ j c h. s.was_made j c (before j c h);
  once = λ j. elim (set_subscribers-cases k v b j) [
    | inl (q, r) ↦ subst NoRepeats (sym r) n
    | inr (q, r) ↦ subst NoRepeats (sym r) (s.once j)
  ];
  one_job = λ j l c h g. s.one_job j l c (before j c h) (before l c g);
  bounded = s.bounded;
}
  where
    before :
        (j : String) (c : ℕ)
        → has c (subscribers_of (set_subscribers k v b) j) ≡ true
        → has c (subscribers_of b j) ≡ true
    before j c h = elim (set_subscribers-cases k v b j) [
      | inl (q, r) ↦
          subst (λ x. has c (subscribers_of b x) ≡ true) (sym q)
            (less c (subst (λ cs. has c cs ≡ true) r h))
      | inr (q, r) ↦ subst (λ cs. has c cs ≡ true) r h
    ]

-- A change of one channel that keeps it open and within its places keeps the broker sound.
pub set_channel-IsSound :
    (c : ℕ) (ch : Channel) (b : Broker)
    → (ch.closed ≡ (b.channels c).closed)
    → length ch.buffer ≤ capacity
    → IsSound b
    → IsSound (record b { channels = set_channel c ch b.channels })
set_channel-IsSound c ch b same fits s = record {
  is_open = λ j k h. elim (Bool-cases (nat_eq k c)) [
    | inl e ↦
        let q : k ≡ c = ground arith in
        rw e (same ∙ subst (λ y. (b.channels y).closed ≡ false) q (s.is_open j k h))
    | inr e ↦ rw e (s.is_open j k h)
  ];
  was_made = s.was_made;
  once = s.once;
  one_job = s.one_job;
  bounded = λ k. elim (Bool-cases (nat_eq k c)) [ inl e ↦ rw e fits | inr e ↦ rw e (s.bounded k) ];
}

pub new_broker-IsSound : IsSound new_broker
unfolding any
new_broker-IsSound = record {
  is_open = λ j c h. refl;
  was_made = λ j c h. cc;
  once = λ j. tt;
  one_job = λ j k c h g. cc;
  bounded = λ c. omega arith;
}
