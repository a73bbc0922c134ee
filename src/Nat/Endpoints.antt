-- ===== src/Nat/Endpoints.antt =====
-- The NAT endpoints of dawos_agent/routers/firewall.py, and what a sequence of requests to them leaves.
use dawos_agent.Prelude.{
  ℕ, Text, codes, text_eq, Bool, true, false, ◌==◌, any, List, [], ◌∷◌, ◌++◌, map, Result, ok, err,
  length, if◌then◌else◌,
}
use dawos_agent.Prelude.Exec.{Exec}
use dawos_agent.Prelude.Texts.{occurs_in, to_lower}
use dawos_agent.Shell.{Shell}
use dawos_agent.Nat.{
  Command, NatFailure, runtime_error, value_error, EgressEntry, NatStatus, get_egress_map,
  set_egress, clear_egress, add_public_ip, remove_public_ip, nat_status, box_egress_status,
  box_egress_set,
}

-- The `HTTPException` of an endpoint.
pub record HttpError : Type 0 where
  pub status_code : ℕ
  pub detail : Text

pub record NatEgressMapResponse : Type 0 where
  pub entries : List EgressEntry
  pub count : ℕ

pub record NatEgressResponse : Type 0 where
  pub success : Bool
  pub message : Text

pub record BoxEgressResponse : Type 0 where
  pub success : Bool
  pub message : Text
  pub enabled : Bool

abbrev server_error : HttpError
server_error = record { status_code = 500; detail = codes "Internal server error" }

-- `except RuntimeError` is 400 with the message; another exception is the framework's 500.
abbrev pub bad_request : NatFailure → HttpError
bad_request (runtime_error message) = record { status_code = 400; detail = message }
bad_request (value_error message) = server_error

-- The words by which a message is taken for that of a missing mapping.
abbrev pub says_missing : Text → Bool
says_missing message =
    any (λ part. occurs_in part (map to_lower message))
      (codes "no such" ∷ codes "does not exist" ∷ codes "cannot" ∷ codes "not found" ∷ [])

abbrev pub clear_error : Text → NatFailure → HttpError
clear_error customer_ip (runtime_error message) =
    if says_missing message
    then record {
      status_code = 404;
      detail = codes "Egress mapping for '" ++ (customer_ip ++ codes "' not found");
    }
    else server_error
clear_error customer_ip (value_error message) = server_error

abbrev pub box_error : NatFailure → HttpError
box_error (value_error message) = record { status_code = 400; detail = message }
box_error (runtime_error message) = server_error

-- The body of `try` raises what it raises, or answers with `f` of its value.
abbrev pub respond :
    {A B : Type 0} → (A → B) → (NatFailure → HttpError) → Result NatFailure A → Result HttpError B
respond f handle (ok a) = ok (f a)
respond f handle (err e) = err (handle e)

abbrev egress_response : Text → NatEgressResponse
egress_response message = record { success = true; message = message }

module _ (sh : Shell Command) where
  open sh use {World}

  unfoldable pub list_egress : World → NatEgressMapResponse × World
  list_egress w = (
    record { entries = (get_egress_map sh w).0; count = length (get_egress_map sh w).0 },
    (get_egress_map sh w).1,
  )

  unfoldable pub post_egress : Text → Text → Exec World HttpError NatEgressResponse
  post_egress target public_ip w = (
    respond egress_response bad_request (set_egress sh target public_ip w).0,
    (set_egress sh target public_ip w).1,
  )

  unfoldable pub delete_egress : Text → Exec World HttpError (Unit {0})
  delete_egress customer_ip w = (
    respond (λ message. tt) (clear_error customer_ip) (clear_egress sh customer_ip w).0,
    (clear_egress sh customer_ip w).1,
  )

  unfoldable pub post_public_ip : Text → Text → Exec World HttpError NatEgressResponse
  post_public_ip public_ip interface w = (
    respond egress_response bad_request (add_public_ip sh public_ip interface w).0,
    (add_public_ip sh public_ip interface w).1,
  )

  -- No interface comes with the request.
  unfoldable pub delete_public_ip : Text → Exec World HttpError (Unit {0})
  delete_public_ip public_ip w = (
    respond (λ message. tt) bad_request (remove_public_ip sh public_ip [] w).0,
    (remove_public_ip sh public_ip [] w).1,
  )

  unfoldable pub full_nat_status : World → NatStatus × World
  full_nat_status = nat_status sh

  unfoldable pub get_box_egress : World → BoxEgressResponse × World
  get_box_egress w = (
    record { success = true; message = codes "OK"; enabled = (box_egress_status sh w).0 },
    (box_egress_status sh w).1,
  )

  unfoldable pub box_egress_toggle : Text → Exec World HttpError BoxEgressResponse
  box_egress_toggle action w = (
    respond
        (λ message. record { success = true; message = message; enabled = action == codes "on" })
        box_error (box_egress_set sh action w).0,
    (box_egress_set sh action w).1,
  )

-- The requests that run commands which change the host.
pub data Request : Type 0 where
  set_mapping add_ip : Text → Text → Request
  clear_mapping remove_ip toggle_box : Text → Request

abbrev pub answered : {E A : Type 0} → Result E A → Bool
answered (ok a) = true
answered (err e) = false

module _ (sh : Shell Command) where
  open sh use {World}

  -- Whether the endpoint answered without an exception, and the host afterwards.
  unfoldable pub serve : Request → World → Bool × World
  serve (set_mapping c p) w = (answered (post_egress sh c p w).0, (post_egress sh c p w).1)
  serve (clear_mapping c) w = (answered (delete_egress sh c w).0, (delete_egress sh c w).1)
  serve (add_ip p i) w = (answered (post_public_ip sh p i w).0, (post_public_ip sh p i w).1)
  serve (remove_ip p) w = (answered (delete_public_ip sh p w).0, (delete_public_ip sh p w).1)
  serve (toggle_box a) w = (answered (box_egress_toggle sh a w).0, (box_egress_toggle sh a w).1)

  -- The requests are served one after another; that the server can run two at once is not in it.
  unfoldable pub serve_all : List Request → World → World
  serve_all [] w = w
  serve_all (request ∷ requests) w = serve_all requests (serve request w).1
