-- ===== src/Api/Stream/Watching.antt =====
-- What the others' steps on the broker do to the channel of a stream.
use openenvx_cloud.Prelude.{
  ℕ, ◌≡◌, ◌≢◌, refl, sym, subst, ◌∙◌, inl, inr, String, true, false, List, [], ◌∷◌, ◌++◌, Option,
  none, some, nat_eq, any, arith, Bool-cases, ◌==◌, eq_iff, if◌then◌else◌,
}
use openenvx_cloud.Models.{Bytes}
use openenvx_cloud.Broker.{
  Channel, Broker, subscribers_of, set_subscribers, subscribe, listed, without, close, closing,
  or_deleted, unsubscribe, receive, offer, publish, Step, subscribes, unsubscribes, publishes,
  receives, step,
}
use openenvx_cloud.Broker.Sound.{has, IsSound, clash, listed-or_deleted, set_subscribers-cases}
use openenvx_cloud.Broker.Publishing.{publish_lem}

-- The others neither receive from the channel nor unsubscribe it.
abbrev pub IsForeign : ℕ → Step → Type 0
IsForeign c (receives k) = c ≢ k
IsForeign c (unsubscribes j k) = c ≢ k
IsForeign c _ = Unit

has-append_old : (c x : ℕ) (cs : List ℕ) → has c cs ≡ true → has c (cs ++ x ∷ []) ≡ true
unfolding any
has-append_old c x [] h = absurd cc
has-append_old c x (y ∷ ys) h = ground (arith, has-append_old c x ys)

pub has-append_new : (x : ℕ) (cs : List ℕ) → has x (cs ++ x ∷ []) ≡ true
unfolding any
has-append_new x [] = ground arith
has-append_new x (y ∷ ys) = ground (arith, has-append_new x ys)

has-without_other : (c x : ℕ) (cs : List ℕ) → c ≢ x → has c cs ≡ true → has c (without x cs) ≡ true
unfolding any without
has-without_other c x [] n h = h
has-without_other c x (y ∷ ys) n h = ground (arith, has-without_other c x ys n)

pub some_inj : {b b' : Broker} → some b ≡ some b' → b ≡ b'
some_inj e = cc

clash_none : {b : Broker} → none ≡ some b → ⊥
clash_none e = cc

module _ (id : String) (c : ℕ) where
  abbrev pub IsListed : Broker → Type 0
  IsListed b = has c (subscribers_of b id) ≡ true

  -- What a step of the others does to the stream's channel.
  abbrev pub seen : Step → Channel → Channel
  seen (publishes j line) ch = if j == id then offer line ch else ch
  seen _ ch = ch

  -- The map changed at one key, where the channel stays.
  set_subscribers-IsListed :
      (j : String) (v : Option (List ℕ)) (b : Broker)
      → (has c (subscribers_of b j) ≡ true → has c (listed v) ≡ true)
      → IsListed b
      → IsListed (set_subscribers j v b)
  set_subscribers-IsListed j v b keeps l = elim (set_subscribers-cases j v b id) [
    | inl (q, r) ↦
        subst (λ cs. has c cs ≡ true) (sym r)
          (keeps (subst (λ x. has c (subscribers_of b x) ≡ true) q l))
    | inr (_, r) ↦ subst (λ cs. has c cs ≡ true) (sym r) l
  ]

  abbrev pub Watched : Step → Broker → Broker → Type 0
  Watched s b b' = IsListed b' × (b'.channels c ≡ seen s (b.channels c))

  subscribe-Watched :
      (j : String) (b : Broker)
      → IsSound b
      → IsListed b
      → Watched (subscribes j) b (subscribe j b).1
  unfolding subscribe
  subscribe-Watched j b s l =
      let old : nat_eq c b.made ≡ false = ground (arith, s.was_made id c l) in
      (
        set_subscribers-IsListed j (some (subscribers_of b j ++ b.made ∷ [])) b
            (has-append_old c b.made (subscribers_of b j)) l,
        rw old refl,
      )

  close-Watched :
      (k : ℕ) (b b' : Broker)
      → c ≢ k
      → close k b ≡ some b'
      → IsListed b
      → IsListed b' × (b'.channels c ≡ b.channels c)
  unfolding close
  close-Watched k b b' n e l =
      let other : nat_eq c k ≡ false = ground (arith, n) in
      elim (Bool-cases (b.channels k).closed) [
        | inl x ↦ absurd (clash_none (rw x at e))
        | inr x ↦
            let q : closing k b ≡ b' = some_inj (rw x at e) in
            subst (λ y. IsListed y × (y.channels c ≡ b.channels c)) q (l, rw other refl)
      ]

  unsubscribe-Watched :
      (j : String) (k : ℕ) (b b' : Broker)
      → c ≢ k
      → unsubscribe j k b ≡ some b'
      → IsListed b
      → Watched (unsubscribes j k) b b'
  unfolding unsubscribe
  unsubscribe-Watched j k b b' n e l =
      let cs = subscribers_of b j in
      elim (Bool-cases (has k cs)) [
        | inl x ↦
            close-Watched k (set_subscribers j (or_deleted (without k cs)) b) b' n (rw x at e) (
              set_subscribers-IsListed j (or_deleted (without k cs)) b
                (λ h.
                  subst (λ y. has c y ≡ true) (sym (listed-or_deleted (without k cs)))
                    (has-without_other c k cs n h))
                l)
        | inr x ↦
            let q : set_subscribers j (or_deleted cs) b ≡ b' = some_inj (rw x at e) in
            subst (Watched (unsubscribes j k) b) q (
              set_subscribers-IsListed j (or_deleted cs) b
                  (λ h. subst (λ y. has c y ≡ true) (sym (listed-or_deleted cs)) h) l,
              refl,
            )
      ]

  publish-Watched :
      (j : String) (line : Bytes) (b b' : Broker)
      → IsSound b
      → publish j line b ≡ some b'
      → IsListed b
      → Watched (publishes j line) b b'
  publish-Watched j line b b' s e l =
      let (x, e', subs, chans) = publish_lem j line b s in
      let q : x ≡ b' = some_inj (sym e' ∙ e) in
      subst (Watched (publishes j line) b) q
        (subst (λ m. has c (listed (m id)) ≡ true) (sym subs) l, chans c ∙ offered)
    where
      offered :
          (if has c (subscribers_of b j) then offer line (b.channels c) else b.channels c)
          ≡ (if j == id then offer line (b.channels c) else b.channels c)
      offered = elim (Bool-cases (j == id)) [
        | inl q ↦
            let same : j ≡ id = (eq_iff j id).0 q in
            rw (q, subst (λ x. has c (subscribers_of b x) ≡ true) (sym same) l) refl
        | inr q ↦ elim (Bool-cases (has c (subscribers_of b j))) [
          | inl h ↦ absurd (clash (sym ((eq_iff j id).1 (s.one_job j id c h l)) ∙ q))
          | inr h ↦ rw (q, h) refl
        ]
      ]

  pub step-Watched :
      (x : Step) (b b' : Broker)
      → IsForeign c x
      → IsSound b
      → step x b ≡ some b'
      → IsListed b
      → Watched x b b'
  unfolding step receive
  step-Watched (subscribes j) b b' f s e l =
      subst (Watched (subscribes j) b) (some_inj e) (subscribe-Watched j b s l)
  step-Watched (unsubscribes j k) b b' f s e l = unsubscribe-Watched j k b b' f e l
  step-Watched (publishes j line) b b' f s e l = publish-Watched j line b b' s e l
  step-Watched (receives k) b b' f s e l =
      let other : nat_eq c k ≡ false = ground (arith, f) in
      subst (Watched (receives k) b) (some_inj e) (l, rw other refl)
