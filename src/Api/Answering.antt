-- ===== src/Api/Answering.antt =====
-- Every request is answered, whatever fails: which codes each route can answer.
use openenvx_cloud.Prelude.{ℕ, ◌≡◌, Bool, true, List, [], ◌∷◌, nat_eq, any}
use openenvx_cloud.World.{ok, World, M}
use openenvx_cloud.Api.Reply.{Reply}
use openenvx_cloud.Api.Routes.{
  Request, create_job, get_job, approve_job, discard_job, get_state, post_state, lock_state,
  unlock_state, stream_logs,
}

-- The codes of a route, beside those of the middleware.
abbrev pub codes_of : Request → List ℕ
codes_of (create_job n) = 201 ∷ 400 ∷ 500 ∷ []
codes_of (get_job id) = 200 ∷ 404 ∷ []
codes_of (approve_job id) = 200 ∷ 400 ∷ 404 ∷ 500 ∷ []
codes_of (discard_job id) = 200 ∷ 400 ∷ 404 ∷ 500 ∷ []
codes_of (get_state id) = 200 ∷ 404 ∷ 500 ∷ []
codes_of (post_state id content) = 200 ∷ 500 ∷ []
codes_of (lock_state id) = 200 ∷ 423 ∷ 500 ∷ []
codes_of (unlock_state id payload query) = 200 ∷ 400 ∷ 500 ∷ []
codes_of (stream_logs id events broker) = 200 ∷ []

abbrev pub listed : ℕ → List ℕ → Bool
listed n codes = any (nat_eq n) codes

-- The call sends a reply with one of the codes.
pub record Answers (codes : List ℕ) (m : M Reply) : Type 0 where
  pub at : (w : World) → (r : Reply) × ((m w).0 ≡ ok r) × (listed r.code codes ≡ true)
