-- ===== src/Router/Middleware/Examples.antt =====
-- The server's chain of interceptors around a handler that answers, one that panics, and on a call
-- whose context is done.
use llm_platform.Common.{
  ℕ, ◌+◌, ◌*◌, ◌≡◌, refl, String, Bool, false, none, some, [], ◌∷◌, ◌++◌, join,
}
use llm_platform.Router.Middleware.{
  Context, CallState, returned, panicked, status_error, code_internal, panic_line, Handler,
  recovery, metrics, chain,
}
use llm_platform.Router.Middleware.Chains.{
  nested, chain-nested, before_handler, Serve, server_panicked,
}

abbrev clock : ℕ → ℕ
clock n = n * 5_000_000

abbrev new_id : ℕ → String
new_id n = "id"

abbrev context : Bool → Context
context done = record {
  request_id = none;
  trace_id = none;
  incoming = some (("x-request-id", "r7" ∷ []) ∷ []);
  outgoing = [];
  done = done;
}

-- The handler's own state is the number of calls that it has seen.
abbrev state : CallState ℕ
state = record {
  metrics = record { total_calls = 4; error_calls = 1; total_latency_ms = 60 };
  log = [];
  readings = 0;
  ids = 0;
  inner = 0;
}

abbrev answers : Handler clock new_id String String ℕ
answers ctx req s = (returned (some (join req "!")) none, record s { inner = s.inner + 1 })

abbrev panics : Handler clock new_id String String ℕ
panics ctx req s = (panicked "nil map", record s { inner = s.inner + 1 })

chain-nested_example :
    chain clock new_id String String ℕ
      (recovery clock new_id String String ℕ ∷ metrics clock new_id String String ℕ ∷ [])
      (context false)
      "hi"
      "/Route"
      panics
      state
    ≡ nested clock new_id String String ℕ "/Route"
        (recovery clock new_id String String ℕ ∷ metrics clock new_id String String ℕ ∷ [])
        panics
        (context false)
        "hi"
        state
chain-nested_example =
    chain-nested clock new_id String String ℕ
      (recovery clock new_id String String ℕ ∷ metrics clock new_id String String ℕ ∷ []) "/Route"
      panics (context false) "hi" state

abbrev answered : CallState ℕ
answered =
    let s = before_handler clock new_id String String ℕ (context false) state in
    record s { inner = s.inner + 1 }

server_panicked_example :
    ((Serve clock new_id String String ℕ "/Route" panics (context false) "hi" state).0
      ≡ returned none
          (some (status_error code_internal (join "internal server error: " "nil map"))))
    × ((Serve clock new_id String String ℕ "/Route" panics (context false) "hi" state).1.inner
        ≡ answered.inner)
    × ((Serve clock new_id String String ℕ "/Route" panics (context false) "hi" state).1.metrics
        ≡ answered.metrics)
    × ((Serve clock new_id String String ℕ "/Route" panics (context false) "hi" state).1.log
        ≡ answered.log ++ (panic_line "/Route" "nil map" ∷ []))
server_panicked_example =
    server_panicked clock new_id String String ℕ "/Route" panics (context false) "hi" state answered
      "nil map" refl refl
