-- ===== src/Examples/Greeter.antt =====
-- examples/prost/server.rs: `GreeterHandler`, over the messages of examples/prost/types.rs. A text is its
-- list of bytes. What an error of prost shows is left out, and so is the reserved capacity.
use wagonet.Prelude.{
  ℕ, zero, suc, ◌+◌, ◌%◌, ◌<◌, ◌≡◌, refl, ap, String, Option, none, some, List, [], ◌∷◌, ◌==◌,
  if◌then◌else◌, arith, length,
}
use wagonet.Errors.{Error, Result, ok, err, from_str, msg, unknown_command}
use wagonet.Action.{Action}
use wagonet.Headers.Status.{ResponseStatus, ok_status}
use wagonet.Protocol.{CommandHandler}

abbrev pub cmd_greet : ℕ
cmd_greet = 1

abbrev pub cmd_stats : ℕ
cmd_stats = 2

pub record GreetRequest : Type 0 where
  pub name : List ℕ
  pub times : ℕ

pub record GreetResponse : Type 0 where
  pub greetings : List (List ℕ)
  pub total_greetings : ℕ

pub record StatsResponse : Type 0 where
  pub total_requests : ℕ
  pub active_connections : ℕ

-- What the handler uses of prost and of `format!`: `decode` and `encode` of each message, with `none` for
-- an error, and the text of a greeting, by the name and the number.
pub record Formats : Type 0 where
  pub decode_greet : List ℕ → Option GreetRequest
  pub decode_stats : List ℕ → Option (Unit {0})
  pub encode_greeted : GreetResponse → Option (List ℕ)
  pub encode_stats : StatsResponse → Option (List ℕ)
  pub greeting : List ℕ → ℕ → List ℕ

-- A sum of `u64`s
abbrev pub add_u64 : ℕ → ℕ → ℕ
add_u64 m n = (m + n) % 18446744073709551616

pub record GreeterHandler : Type 0 where
  pub total_requests : ℕ
  pub total_greetings : ℕ

-- `if request.times == 0 { 1 } else { request.times }`
unfoldable pub times_of : GreetRequest → ℕ
times_of r = if r.times == 0 then 1 else r.times

module _ (formats : Formats) where
  -- `for i in 0..times`, from the greeting behind the first `i` ones, with so many to come
  unfoldable pub greetings_from : List ℕ → ℕ → ℕ → List (List ℕ)
  greetings_from name i zero = []
  greetings_from name i (suc left) =
      formats.greeting name (i + 1) ∷ greetings_from name (i + 1) left

  unfoldable pub encoded : String → Option (List ℕ) → Result Error (ResponseStatus × List ℕ)
  encoded failure none = err (from_str failure)
  encoded failure (some buf) = ok (ok_status, buf)

  unfoldable pub greet : Option GreetRequest → Action GreeterHandler (ResponseStatus × List ℕ)
  unfolding times_of
  greet none h = (err (from_str "Failed to decode GreetRequest"), h)
  greet (some request) h =
      let times = times_of request in
      let total = add_u64 h.total_greetings times in
      (
        encoded "Failed to encode GreetResponse" (
            formats.encode_greeted (record {
              greetings = greetings_from request.name 0 times;
              total_greetings = total;
            })),
        record h { total_greetings = total },
      )

  unfoldable pub stats : Option (Unit {0}) → Action GreeterHandler (ResponseStatus × List ℕ)
  stats none h = (err (from_str "Failed to decode StatsRequest"), h)
  stats (some _) h = (
    encoded "Failed to encode StatsResponse" (
        formats.encode_stats
          (record { total_requests = h.total_requests; active_connections = 0 })),
    h,
  )

  unfoldable pub run : ℕ → List ℕ → Action GreeterHandler (ResponseStatus × List ℕ)
  unfolding greet stats
  run command bytes h =
      let h' = record h { total_requests = add_u64 h.total_requests 1 } in
      if command == cmd_greet
      then greet (formats.decode_greet bytes) h'
      else if command == cmd_stats
      then stats (formats.decode_stats bytes) h'
      else (err (msg (unknown_command command)), h')

  abbrev pub greeter : CommandHandler
  greeter = record { Own = GreeterHandler; run = run }

abbrev pub get_elem? {ℓ} : {A : Type ℓ} → List A → ℕ → Option A
get_elem? [] i = none
get_elem? (x ∷ xs) zero = some x
get_elem? (x ∷ xs) (suc i) = get_elem? xs i

module _ (formats : Formats) where
  length-greetings_from :
      (name : List ℕ) (i left : ℕ) → length (greetings_from formats name i left) ≡ left
  unfolding greetings_from
  length-greetings_from name i zero = refl
  length-greetings_from name i (suc left) = ap suc (length-greetings_from name (i + 1) left)

  get_elem-greetings_from :
      (name : List ℕ) (k i left : ℕ)
      → i < left
      → get_elem? (greetings_from formats name k left) i ≡ some (formats.greeting name (k + i + 1))
  unfolding greetings_from
  get_elem-greetings_from name k i zero few = absurd (omega arith)
  get_elem-greetings_from name k zero (suc left) few =
      let here : k + 0 + 1 ≡ k + 1 = omega arith in rw here refl
  get_elem-greetings_from name k (suc i) (suc left) few =
      let there : k + suc i + 1 ≡ k + 1 + i + 1 = omega arith in
      rw there (get_elem-greetings_from name (k + 1) i left (omega arith))

  -- Where prost encodes every response, and decodes what it encoded to the same response, for a payload
  -- that decodes to a request, and the place of any of the greetings that it asks for, one where it
  -- asks for none: the handler replies with status 1; the client decodes the reply to as many
  -- greetings, the one at that place has the name and the number of the place, counted from one; and
  -- the total in the reply is the number of greetings that was counted before with these added, as
  -- a 64-bit number, which is what the handler has counted behind it.
  pub greet_replies :
      (decode_greeted : List ℕ → Option GreetResponse)
      → ((r : GreetResponse)
          → (buf : List ℕ) × (formats.encode_greeted r ≡ some buf) × (decode_greeted buf ≡ some r))
      → (bytes : List ℕ) (request : GreetRequest) (i : ℕ) (h : GreeterHandler)
      → formats.decode_greet bytes ≡ some request
      → i < times_of request
      → (reply : List ℕ) × (response : GreetResponse) × ((run formats cmd_greet bytes h).0
          ≡ ok (ok_status, reply))
        × (decode_greeted reply ≡ some response)
        × (length response.greetings ≡ times_of request)
        × (get_elem? response.greetings i ≡ some (formats.greeting request.name (i + 1)))
        × (response.total_greetings ≡ add_u64 h.total_greetings (times_of request))
        × ((run formats cmd_greet bytes h).1.total_greetings ≡ response.total_greetings)
        × ((run formats cmd_greet bytes h).1.total_requests ≡ add_u64 h.total_requests 1)
  unfolding run greet encoded
  greet_replies decode_greeted trips bytes request i h is place =
      let response : GreetResponse = record {
        greetings = greetings_from formats request.name 0 (times_of request);
        total_greetings = add_u64 h.total_greetings (times_of request);
      } in
      let (buf, encodes, decodes) = trips response in
      (
        buf,
        response,
        rw (is, run, greet) (rw (encodes, encoded) refl),
        decodes,
        length-greetings_from request.name 0 (times_of request),
        (let first : 0 + i + 1 ≡ i + 1 = omega arith in
            rw first at (get_elem-greetings_from request.name 0 i (times_of request) place)),
        refl,
        rw (is, run, greet) refl,
        rw (is, run, greet) refl,
      )
