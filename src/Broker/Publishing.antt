-- ===== src/Broker/Publishing.antt =====
-- internal/pubsub/broker.go: what `Publish` does to the channels.
use openenvx_cloud.Prelude.{
  ℕ, suc, ◌≤◌, ◌≡◌, refl, sym, ap, subst, ◌∙◌, inl, inr, String, true, false, List, [], ◌∷◌, ◌++◌,
  some, nat_eq, any, length, arith, Bool-cases, if◌then◌else◌,
}
use openenvx_cloud.Models.{Bytes}
use openenvx_cloud.Broker.{
  Channel, Broker, capacity, subscribers_of, set_channel, offer, deliver, publish,
}
use openenvx_cloud.Broker.Sound.{has, NoRepeats, IsSound, set_channel-IsSound}

length-append_one : (ls : List Bytes) (l : Bytes) → length (ls ++ l ∷ []) ≡ suc (length ls)
length-append_one [] l = refl
length-append_one (x ∷ ls) l = omega (arith, length-append_one ls l)

offer-fits :
    (line : Bytes) (ch : Channel)
    → length ch.buffer ≤ capacity
    → length (offer line ch).buffer ≤ capacity
unfolding offer
offer-fits line ch h = ground (arith, length-append_one ch.buffer line)

offer-closed : (line : Bytes) (ch : Channel) → (offer line ch).closed ≡ ch.closed
unfolding offer
offer-closed line ch = ground arith

deliver-cons :
    (line : Bytes) (c : ℕ) (cs : List ℕ) (channels : ℕ → Channel)
    → (channels c).closed ≡ false
    → deliver line (c ∷ cs) channels
      ≡ deliver line cs (set_channel c (offer line (channels c)) channels)
unfolding deliver
deliver-cons line c cs channels e = rw e refl

-- Where the channels of a list are open, the line is offered to each, and nothing panics.
deliver-IsSound :
    (line : Bytes) (cs : List ℕ) (b : Broker)
    → ((c : ℕ) → has c cs ≡ true → (b.channels c).closed ≡ false)
    → IsSound b
    → (channels : ℕ → Channel) × (deliver line cs b.channels ≡ some channels)
      × IsSound (record b { channels = channels })
unfolding deliver any
deliver-IsSound line [] b opened s = (b.channels, refl, s)
deliver-IsSound line (c ∷ cs) b opened s =
    let ch = offer line (b.channels c) in
    let here : (b.channels c).closed ≡ false = opened c (ground arith) in
    let (channels, e, t) =
      deliver-IsSound line cs (record b { channels = set_channel c ch b.channels })
        (λ k h. elim (Bool-cases (nat_eq k c)) [
          | inl q ↦ rw q (offer-closed line (b.channels c) ∙ here)
          | inr q ↦ rw q (opened k (rw (h) (ground arith)))
        ])
        (set_channel-IsSound c ch b (offer-closed line (b.channels c))
          (offer-fits line (b.channels c) (s.bounded c)) s) in
    (channels, deliver-cons line c cs b.channels here ∙ e, t)

pub publish-IsSound :
    (job_id : String) (line : Bytes) (b : Broker)
    → IsSound b
    → (b' : Broker) × (publish job_id line b ≡ some b') × IsSound b'
unfolding publish
publish-IsSound job_id line b s =
    let (channels, e, t) = deliver-IsSound line (subscribers_of b job_id) b (s.is_open job_id) s in
    (record b { channels = channels }, rw e refl, t)

deliver_lem :
    (line : Bytes) (cs : List ℕ) (channels : ℕ → Channel)
    → ((c : ℕ) → has c cs ≡ true → (channels c).closed ≡ false)
    → NoRepeats cs
    → (out : ℕ → Channel) × (deliver line cs channels ≡ some out)
      × ((k : ℕ) → out k ≡ (if has k cs then offer line (channels k) else channels k))
unfolding deliver any
deliver_lem line [] channels opened n = (channels, refl, λ k. refl)
deliver_lem line (c ∷ cs) channels opened (f, n) =
    let here : (channels c).closed ≡ false = opened c (ground arith) in
    let (out, e, t) =
      deliver_lem line cs (set_channel c (offer line (channels c)) channels)
        (λ k h. elim (Bool-cases (nat_eq k c)) [
          | inl q ↦ rw q (offer-closed line (channels c) ∙ here)
          | inr q ↦ rw q (opened k (rw (h) (ground arith)))
        ])
        n in
    (
      out,
      deliver-cons line c cs channels here ∙ e,
      λ k. elim (Bool-cases (nat_eq k c)) [
        | inl q ↦
            let same : k ≡ c = ground arith in
            let gone : has k cs ≡ false = subst (λ x. has x cs ≡ false) (sym same) f in
            t k ∙ rw (q, gone) (ap (λ x. offer line (channels x)) (sym same))
        | inr q ↦ t k ∙ rw q refl
      ],
    )

-- Publishing on a sound broker does not panic; it offers the line to each channel of the job, which
-- takes it at the end if it holds less than 100 lines and drops it if not, and it changes no other
-- channel and not the map.
pub publish_lem :
    (job_id : String) (line : Bytes) (b : Broker)
    → IsSound b
    → (b' : Broker) × (publish job_id line b ≡ some b')
      × (b'.subscribers ≡ b.subscribers)
      × ((c : ℕ)
          → b'.channels c
            ≡ (if has c (subscribers_of b job_id) then offer line (b.channels c) else b.channels c))
unfolding publish
publish_lem job_id line b s =
    let (out, e, t) =
      deliver_lem line (subscribers_of b job_id) b.channels (s.is_open job_id) (s.once job_id) in
    (record b { channels = out }, rw e refl, refl, t)
