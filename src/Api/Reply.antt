-- ===== src/Api/Reply.antt =====
-- What a handler answers: the status of the HTTP response and its body.
use openenvx_cloud.Prelude.{ℕ, String, Option}
use openenvx_cloud.Models.{Bytes, Job}
use openenvx_cloud.Api.Stream.{Stream}

pub data Body : Type 0 where
  error : String → Body  -- {"error": text}
  locked : String → String → Body  -- {"error": text, "locked_by_job_id": id}
  job : Job → Body
  stream : Bytes → Body
  torn : Bytes → String → Body  -- what was sent until a read failed, with the error that is returned
  logs : Option Stream → Body  -- the stream of a log
  text : String → Body
  no_content : Body

pub record Reply : Type 0 where
  pub code : ℕ
  pub body : Body

abbrev pub failure : ℕ → String → Reply
failure code message = record { code = code; body = error message }

abbrev pub plain : ℕ → Reply
plain code = record { code = code; body = no_content }
