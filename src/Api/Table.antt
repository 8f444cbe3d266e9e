-- ===== src/Api/Table.antt =====
-- internal/api/server.go: the table of the routes. Which route a request goes to is echo's to say; what is
-- relied on is that the method is the route's, and that the path fits its pattern: as many segments, the
-- same ones where the pattern writes them out, any where it names a parameter.
use openenvx_cloud.Prelude.{
  ◌≡◌, refl, sym, ap, ◌∙◌, String, List, [], ◌∷◌, Option, none, some, ◌==◌, if◌then◌else◌, arith,
}

pub data Method : Type 0 where
  get post lock unlock : Method

pub data Segment : Type 0 where
  fixed : String → Segment
  param : String → Segment

pub data Endpoint : Type 0 where
  create_job get_job stream_job_logs approve_job discard_job : Endpoint
  get_project_state post_project_state lock_project_state unlock_project_state : Endpoint

unfoldable pub method : Endpoint → Method
method create_job = post
method get_job = get
method stream_job_logs = get
method approve_job = post
method discard_job = post
method get_project_state = get
method post_project_state = post
method lock_project_state = lock
method unlock_project_state = unlock

-- Behind `/internal/api/v1`.
unfoldable pub pattern_of : Endpoint → List Segment
pattern_of create_job = fixed "jobs" ∷ []
pattern_of get_job = fixed "jobs" ∷ param "id" ∷ []
pattern_of stream_job_logs = fixed "jobs" ∷ param "id" ∷ fixed "logs" ∷ fixed "stream" ∷ []
pattern_of approve_job = fixed "jobs" ∷ param "id" ∷ fixed "approve" ∷ []
pattern_of discard_job = fixed "jobs" ∷ param "id" ∷ fixed "discard" ∷ []
pattern_of get_project_state = fixed "projects" ∷ param "id" ∷ fixed "state" ∷ []
pattern_of post_project_state = fixed "projects" ∷ param "id" ∷ fixed "state" ∷ []
pattern_of lock_project_state = fixed "projects" ∷ param "id" ∷ fixed "state" ∷ []
pattern_of unlock_project_state = fixed "projects" ∷ param "id" ∷ fixed "state" ∷ []

-- A path, by its segments, fits a pattern.
pub data Fits : List Segment → List String → Type 0 where
  ended : Fits [] []
  same :
      {s : String} {ps : List Segment} {ss : List String}
      → Fits ps ss
      → Fits (fixed s ∷ ps) (s ∷ ss)
  given :
      {name s : String} {ps : List Segment} {ss : List String}
      → Fits ps ss
      → Fits (param name ∷ ps) (s ∷ ss)

-- The route of a request, by the number of segments and the last of them.
abbrev endpoint_at : Method → List String → Option Endpoint
endpoint_at post (_ ∷ []) = some create_job
endpoint_at get (_ ∷ _ ∷ []) = some get_job
endpoint_at get (_ ∷ _ ∷ _ ∷ _ ∷ []) = some stream_job_logs
endpoint_at post (_ ∷ _ ∷ s ∷ []) =
    if s == "approve"
    then some approve_job
    else if s == "discard"
    then some discard_job
    else some post_project_state
endpoint_at get (_ ∷ _ ∷ _ ∷ []) = some get_project_state
endpoint_at lock _ = some lock_project_state
endpoint_at unlock _ = some unlock_project_state
endpoint_at _ _ = none

found :
    (e : Endpoint) (path : List String)
    → Fits (pattern_of e) path
    → endpoint_at (method e) path ≡ some e
unfolding method pattern_of
found create_job _ (same ended) = refl
found get_job _ (same (given ended)) = refl
found stream_job_logs _ (same (given (same (same ended)))) = refl
found approve_job _ (same (given (same ended))) = refl
found discard_job _ (same (given (same ended))) = refl
found get_project_state _ (same (given (same ended))) = refl
found post_project_state _ (same (given (same ended))) = refl
found lock_project_state _ f = refl
found unlock_project_state _ f = refl

some_inj : {a b : Endpoint} → some a ≡ some b → a ≡ b
some_inj e = ground (arith, e)

-- Two routes with the same method whose patterns fit the same path are one: no request fits two routes.
pub pattern_of_unique :
    (a b : Endpoint) (path : List String)
    → method a ≡ method b
    → Fits (pattern_of a) path
    → Fits (pattern_of b) path
    → a ≡ b
pattern_of_unique a b path m f g =
    some_inj (sym (found a path f) ∙ ap (λ x. endpoint_at x path) m ∙ found b path g)
