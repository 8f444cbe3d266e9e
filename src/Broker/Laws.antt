-- ===== src/Broker/Laws.antt =====
-- internal/pubsub/broker.go: the broker's methods one after another, from a broker that is sound.
use openenvx_cloud.Prelude.{
  ℕ, ◌≤◌, ◌<◌, ◌≡◌, refl, sym, ap, subst, ◌∙◌, ◌⊎◌, inl, inr, String, true, false, List, [], ◌∷◌,
  ◌++◌, some, nat_eq, length, arith, Bool-cases,
}
use openenvx_cloud.Models.{Bytes}
use openenvx_cloud.Broker.{
  Broker, capacity, subscribers_of, set_subscribers, subscribe, without, close, closing, or_deleted,
  unsubscribe, receive, rest_of, Step, subscribes, unsubscribes, publishes, receives, step,
  and_then, steps,
}
use openenvx_cloud.Broker.Sound.{
  has, NoRepeats, IsSound, clash, has-without, without-gone, NoRepeats-append, NoRepeats-without,
  listed-or_deleted, set_subscribers-cases, set_subscribers-IsSound, set_channel-IsSound,
  has-append,
}
use openenvx_cloud.Broker.Publishing.{publish-IsSound}

pub subscribe-IsSound : (job_id : String) (b : Broker) → IsSound b → IsSound (subscribe job_id b).1
unfolding subscribe
subscribe-IsSound job_id b s = record {
  is_open = λ j c h. elim (found j c h) [
    | inl (g, n) ↦ let old : nat_eq c b.made ≡ false = ground (arith, n) in rw old (s.is_open j c g)
    | inr (q, e) ↦ let new : nat_eq c b.made ≡ true = ground (arith, e) in rw new refl
  ];
  was_made =
      λ j c h. elim (found j c h) [ inl (g, n) ↦ omega (arith, n) | inr (q, e) ↦ omega (arith, e) ];
  once = λ j.
      elim (set_subscribers-cases job_id (some (subscribers_of b job_id ++ b.made ∷ [])) b j) [
        | inl (q, r) ↦
            subst NoRepeats (sym r)
              (NoRepeats-append b.made (subscribers_of b job_id) unknown (s.once job_id))
        | inr (q, r) ↦ subst NoRepeats (sym r) (s.once j)
      ];
  one_job = λ j k c h g. elim (found j c h) [
    | inl (x, n) ↦ elim (found k c g) [
      | inl (y, m) ↦ s.one_job j k c x y
      | inr (q, e) ↦ absurd (omega (arith, n, e))
    ]
    | inr (q, e) ↦ elim (found k c g) [
      | inl (y, m) ↦ absurd (omega (arith, m, e))
      | inr (r, f) ↦ q ∙ sym r
    ]
  ];
  bounded = λ k. elim (Bool-cases (nat_eq k b.made)) [
    | inl e ↦ rw e (omega arith)
    | inr e ↦ rw e (s.bounded k)
  ];
}
  where
    -- A channel of a job is one of its channels from before, or the new one.
    found :
        (j : String) (c : ℕ)
        → has c (subscribers_of (subscribe job_id b).1 j) ≡ true
        → ((has c (subscribers_of b j) ≡ true) × (c < b.made)) ⊎ ((j ≡ job_id) × (c ≡ b.made))
    found j c h =
        elim (set_subscribers-cases job_id (some (subscribers_of b job_id ++ b.made ∷ [])) b j) [
          | inl (q, r) ↦
              elim (has-append c b.made (subscribers_of b job_id)
                (subst (λ cs. has c cs ≡ true) r h)) [
                  | inl g ↦ inl (
                    subst (λ x. has c (subscribers_of b x) ≡ true) (sym q) g,
                    s.was_made job_id c g,
                  )
                  | inr e ↦ inr (q, e)
                ]
          | inr (q, r) ↦ let g = subst (λ cs. has c cs ≡ true) r h in inl (g, s.was_made j c g)
        ]

    unknown : has b.made (subscribers_of b job_id) ≡ false
    unknown = elim (Bool-cases (has b.made (subscribers_of b job_id))) [
      | inl g ↦ absurd (omega (arith, s.was_made job_id b.made g))
      | inr g ↦ g
    ]

-- Closing a channel that the map does not list.
close-IsSound :
    (c : ℕ) (b : Broker)
    → ((j : String) → has c (subscribers_of b j) ≡ false)
    → (b.channels c).closed ≡ false
    → IsSound b
    → (b' : Broker) × (close c b ≡ some b') × IsSound b'
unfolding close
close-IsSound c b gone opened s = (
  closing c b,
  rw opened refl,
  record {
    is_open = λ j k h. elim (Bool-cases (nat_eq k c)) [
      | inl e ↦
          let q : k ≡ c = ground arith in
          absurd (clash (sym (subst (λ y. has y (subscribers_of b j) ≡ true) q h) ∙ gone j))
      | inr e ↦ rw e (s.is_open j k h)
    ];
    was_made = s.was_made;
    once = s.once;
    one_job = s.one_job;
    bounded = λ k. elim (Bool-cases (nat_eq k c)) [
      | inl e ↦ rw e (s.bounded c)
      | inr e ↦ rw e (s.bounded k)
    ];
  },
)

pub unsubscribe-IsSound :
    (job_id : String) (c : ℕ) (b : Broker)
    → IsSound b
    → (b' : Broker) × (unsubscribe job_id c b ≡ some b') × IsSound b'
unfolding unsubscribe
unsubscribe-IsSound job_id c b s = elim (Bool-cases (has c (subscribers_of b job_id))) [
  | inl e ↦
      let cs = subscribers_of b job_id in
      let v = or_deleted (without c cs) in
      let narrow : IsSound (set_subscribers job_id v b) =
        set_subscribers-IsSound job_id v b
          (λ k h.
            has-without k c cs (subst (λ x. has k x ≡ true) (listed-or_deleted (without c cs)) h))
          (subst NoRepeats (sym (listed-or_deleted (without c cs)))
            (NoRepeats-without c cs (s.once job_id)))
          s in
      rw e (close-IsSound c (set_subscribers job_id v b) (gone e) (s.is_open job_id c e) narrow)
  | inr e ↦
      let cs = subscribers_of b job_id in
      rw e (
        _,
        refl,
        set_subscribers-IsSound job_id (or_deleted cs) b
            (λ k h. subst (λ x. has k x ≡ true) (listed-or_deleted cs) h)
            (subst NoRepeats (sym (listed-or_deleted cs)) (s.once job_id)) s,
      )
]
  where
    gone :
        has c (subscribers_of b job_id) ≡ true
        → (j : String)
        → has c (
            subscribers_of
              (set_subscribers job_id (or_deleted (without c (subscribers_of b job_id))) b)
              j)
          ≡ false
    gone e j =
        let cs = subscribers_of b job_id in
        elim (set_subscribers-cases job_id (or_deleted (without c cs)) b j) [
          | inl (q, r) ↦
              subst (λ x. has c x ≡ false) (sym (r ∙ listed-or_deleted (without c cs)))
                (without-gone c cs (s.once job_id))
          | inr (q, r) ↦ elim (Bool-cases (has c (subscribers_of b j))) [
            | inl g ↦ absurd (q (s.one_job j job_id c g e))
            | inr g ↦ subst (λ x. has c x ≡ false) (sym r) g
          ]
        ]

pub receive-IsSound : (c : ℕ) (b : Broker) → IsSound b → IsSound (receive c b)
unfolding receive
receive-IsSound c b s =
    set_channel-IsSound c _ b refl (rest_fits (b.channels c).buffer (s.bounded c)) s
  where
    rest_fits : (ls : List Bytes) → length ls ≤ capacity → length (rest_of ls) ≤ capacity
    rest_fits [] h = h
    rest_fits (l ∷ ls) h = omega (arith, h)

pub step-IsSound :
    (x : Step) (b : Broker) → IsSound b → (b' : Broker) × (step x b ≡ some b') × IsSound b'
unfolding step
step-IsSound (subscribes j) b s = ((subscribe j b).1, refl, subscribe-IsSound j b s)
step-IsSound (unsubscribes j c) b s = unsubscribe-IsSound j c b s
step-IsSound (publishes j line) b s = publish-IsSound j line b s
step-IsSound (receives c) b s = (receive c b, refl, receive-IsSound c b s)

-- From a sound broker, as the new one is, no sequence of subscribing, unsubscribing, publishing and
-- receiving panics, whatever channels are unsubscribed or received from; and afterwards the broker is
-- sound again: each channel in its map was made, is open and stands there once, and no channel holds
-- more than 100 lines.
pub steps-IsSound :
    (ss : List Step) (b : Broker) → IsSound b → (b' : Broker) × (steps ss b ≡ some b') × IsSound b'
unfolding steps
steps-IsSound [] b s = (b, refl, s)
steps-IsSound (x ∷ ss) b s =
    let (b₁, e, t) = step-IsSound x b s in
    let (b₂, f, u) = steps-IsSound ss b₁ t in (b₂, ap (λ o. and_then o (steps ss)) e ∙ f, u)
