-- ===== src/Api/Stream/Delivery.antt =====
-- What a client of the stream receives, and how its subscription ends.
use mathlib.Core.List.{Sublistᴰ, append_assoc, append-nil}
use openenvx_cloud.Prelude.{
  ℕ, ◌≤◌, ◌≡◌, refl, sym, ap, subst, ◌∙◌, inl, inr, String, Bool, true, false, List, [], ◌∷◌, ◌++◌,
  map, some, nat_eq, length, arith, Bool-cases, ◌==◌, eq_iff, if◌then◌else◌,
}
use openenvx_cloud.Models.{Bytes}
use openenvx_cloud.Broker.{
  Channel, Broker, capacity, subscribers_of, set_subscribers, subscribe, without, close, closing,
  or_deleted, unsubscribe, receive, Step, subscribes, unsubscribes, publishes, receives,
}
use openenvx_cloud.Broker.Sound.{
  has, IsSound, without-gone, listed-or_deleted, set_subscribers-cases,
}
use openenvx_cloud.Broker.Laws.{
  subscribe-IsSound, step-IsSound, unsubscribe-IsSound, receive-IsSound,
}
use openenvx_cloud.Api.Stream.{
  frame, Event, elsewhere, gone, chosen, Stream, leave, stream_from, handle_stream_job_logs,
}
use openenvx_cloud.Api.Stream.Watching.{
  IsForeign, IsListed, seen, step-Watched, has-append_new, some_inj,
}
use openenvx_cloud.Api.Stream.Lines.{
  Sublist_prefix, buffer_cases, within, map-append_one, Told, Told-offer,
}

module _ (id : String) where
  -- The lines published for the job while the stream listens.
  abbrev pub step_lines : Step → List Bytes
  step_lines (publishes j line) = if j == id then line ∷ [] else []
  step_lines _ = []

  abbrev pub lines_of : List Event → List Bytes
  lines_of [] = []
  lines_of (elsewhere s ∷ es) = step_lines s ++ lines_of es
  lines_of (_ ∷ es) = lines_of es

  abbrev pub AllForeign : ℕ → List Event → Type 0
  AllForeign c [] = Unit
  AllForeign c (elsewhere s ∷ es) = IsForeign c s × AllForeign c es
  AllForeign c (_ ∷ es) = AllForeign c es

module _ (id : String) (c : ℕ) where
  Told-seen :
      (got ls : List Bytes) (s : Step) (ch : Channel)
      → Told (got ++ ch.buffer) ls
      → Told (got ++ (seen id c s ch).buffer) (ls ++ step_lines id s)
  Told-seen got ls (publishes j line) ch t = elim (Bool-cases (j == id)) [
    | inl e ↦ rw e (Told-offer got ls line ch t)
    | inr e ↦ rw (e, append-nil ls) t
  ]
  Told-seen got ls (subscribes j) ch t = rw (append-nil ls) t
  Told-seen got ls (unsubscribes j k) ch t = rw (append-nil ls) t
  Told-seen got ls (receives k) ch t = rw (append-nil ls) t

  -- The stream of a client that was told of some of the lines.
  pub record Delivered (ls : List Bytes) (s : Stream) : Type 0 where
    pub got : List Bytes
    pub sent : s.sent ≡ map frame got
    pub in_order : Sublistᴰ got ls
    pub all_told :
        s.serving ≡ true → length ls ≤ capacity → got ++ (s.broker.channels c).buffer ≡ ls
    pub sound : IsSound s.broker
    pub released :
        s.serving ≡ false
        → (has c (subscribers_of s.broker id) ≡ false) × ((s.broker.channels c).closed ≡ true)

  unsubscribe-listed :
      (b : Broker)
      → IsListed id c b
      → IsSound b
      → unsubscribe id c b
        ≡ some (closing c (set_subscribers id (or_deleted (without c (subscribers_of b id))) b))
  unfolding unsubscribe close
  unsubscribe-listed b l s = rw (l, s.is_open id c l) refl

  unsubscribe-gone :
      (b : Broker)
      → IsSound b
      → has c
          (subscribers_of (set_subscribers id (or_deleted (without c (subscribers_of b id))) b) id)
        ≡ false
  unsubscribe-gone b s =
      let cs = subscribers_of b id in
      elim (set_subscribers-cases id (or_deleted (without c cs)) b id) [
        | inl (_, r) ↦
            subst (λ x. has c x ≡ false) (sym (r ∙ listed-or_deleted (without c cs)))
              (without-gone c cs (s.once id))
        | inr (n, _) ↦ absurd (n refl)
      ]

  receive-IsListed : (b : Broker) → IsListed id c b → IsListed id c (receive c b)
  unfolding receive
  receive-IsListed b l = l

  received :
      (got : List Bytes) (line : Bytes) (rest : List Bytes) (b : Broker)
      → (b.channels c).buffer ≡ line ∷ rest
      → (got ++ line ∷ []) ++ ((receive c b).channels c).buffer ≡ got ++ (b.channels c).buffer
  unfolding receive
  received got line rest b q =
      let same : nat_eq c c ≡ true = ground arith in
      rw (same, q) (append_assoc got (line ∷ []) rest)

  leave-Delivered :
      (failed : Bool) (got sent ls : List Bytes) (b : Broker)
      → sent ≡ map frame got
      → Sublistᴰ got ls
      → IsSound b
      → IsListed id c b
      → (s : Stream) × (leave id c failed sent b ≡ some s) × Delivered ls s
  unfolding leave
  leave-Delivered failed got sent ls b e sub s l =
      let (b', q, s') = unsubscribe-IsSound id c b s in
      let same = some_inj (sym (unsubscribe-listed b l s) ∙ q) in
      let closed : nat_eq c c ≡ true = ground arith in
      (
        record { sent = sent; broker = b'; serving = false; failed = failed },
        rw (leave, q) refl,
        record {
          got = got;
          sent = e;
          in_order = sub;
          all_told = λ h. absurd cc;
          sound = s';
          released = λ _.
              subst (λ x. (has c (subscribers_of x id) ≡ false) × ((x.channels c).closed ≡ true))
                same (unsubscribe-gone b s, rw closed refl);
        },
      )

  stream_from-Delivered :
      (es : List Event) (got sent ls all : List Bytes) (b : Broker)
      → all ≡ ls ++ lines_of id es
      → AllForeign id c es
      → sent ≡ map frame got
      → Told (got ++ (b.channels c).buffer) ls
      → IsSound b
      → IsListed id c b
      → (s : Stream) × (stream_from id c es sent b ≡ some s) × Delivered all s
  unfolding stream_from
  stream_from-Delivered [] got sent ls all b p f e (sub, exact) s l = (
    record { sent = sent; broker = b; serving = true; failed = false },
    refl,
    subst (λ x. Delivered x (record { sent = sent; broker = b; serving = true; failed = false }))
        (sym (p ∙ append-nil ls))
        (record {
          got = got;
          sent = e;
          in_order = Sublist_prefix got (b.channels c).buffer ls sub;
          all_told = λ _. exact;
          sound = s;
          released = λ h. absurd cc;
        }),
  )
  stream_from-Delivered (elsewhere x ∷ es) got sent ls all b p (fx, f) e t s l =
      let (b', q, s') = step-IsSound x b s in
      let (l', same) = step-Watched id c x b b' fx s q l in
      rw (stream_from, q)
        (stream_from-Delivered es got sent (ls ++ step_lines id x) all b'
          (p ∙ sym (append_assoc ls (step_lines id x) (lines_of id es))) f e
          (subst (λ ch. Told (got ++ ch.buffer) (ls ++ step_lines id x)) (sym same)
            (Told-seen got ls x (b.channels c) t))
          s' l')
  stream_from-Delivered (gone ∷ es) got sent ls all b p f e (sub, _) s l =
      leave-Delivered false got sent all b e (within _ _ p sub) s l
  stream_from-Delivered (chosen true ∷ es) got sent ls all b p f e (sub, exact) s l =
      elim (buffer_cases (b.channels c).buffer) [
        | inl q ↦
            rw (stream_from, q, s.is_open id c l)
              (stream_from-Delivered es got sent ls all b p f e (sub, exact) s l)
        | inr (line, rest, q) ↦
            rw (stream_from, q)
              (stream_from-Delivered es (got ++ line ∷ []) (sent ++ frame line ∷ []) ls all
                (receive c b) p f (ap (λ x. x ++ frame line ∷ []) e ∙ sym (map-append_one got line))
                (subst (λ x. Told x ls) (sym (received got line rest b q)) (sub, exact))
                (receive-IsSound c b s) (receive-IsListed b l))
      ]
  stream_from-Delivered (chosen false ∷ es) got sent ls all b p f e (sub, exact) s l =
      elim (buffer_cases (b.channels c).buffer) [
        | inl q ↦
            rw (stream_from, q, s.is_open id c l)
              (stream_from-Delivered es got sent ls all b p f e (sub, exact) s l)
        | inr (line, rest, q) ↦
            rw (stream_from, q)
              (leave-Delivered true got sent all (receive c b) e (within _ _ p sub)
                (receive-IsSound c b s) (receive-IsListed b l))
      ]

module _ (id : String) (es : List Event) (b : Broker) where
  -- From a sound broker, where the others neither receive from the stream's channel nor unsubscribe
  -- it: the handler never panics, and the client is sent, each as one frame, some of the lines that are
  -- published for the job meanwhile, in their order. While the handler runs and no more than 100 lines
  -- were published, those sent and those still in the channel are all of them. Once it has returned,
  -- its channel is closed and no longer subscribed. The broker is sound afterwards.
  pub stream_lem :
      IsSound b
      → AllForeign id b.made es
      → (s : Stream) × (handle_stream_job_logs id es b ≡ some s)
        × Delivered id b.made (lines_of id es) s
  unfolding handle_stream_job_logs subscribe
  stream_lem sound f =
      let new : nat_eq b.made b.made ≡ true = ground arith in
      let same : (id == id) ≡ true = (eq_iff id id).1 refl in
      stream_from-Delivered id b.made es [] [] [] (lines_of id es) (subscribe id b).1 refl f refl
        (rw new (Sublistᴰ.slnil, λ _. refl)) (subscribe-IsSound id b sound)
        (rw same (has-append_new b.made (subscribers_of b id)))
