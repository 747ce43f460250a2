-- ===== src/Http/Replies.antt =====
-- service_order_handler.go and error_mapper.go: a reply says what the use case did.
use oficina_tech_ms_order_se.Shared.{
  Bool, Option, String, [], arith, false, if◌then◌else◌, inl, inr, is_empty, length, none, refl,
  some, true, ℕ, ◌||◌, ◌≡◌, ◌≤◌, ◌⊎◌, List, not, ◌&&◌,
}
use oficina_tech_ms_order_se.Domain.Errors.{Error, Result, err, ok}
use oficina_tech_ms_order_se.Http.Failures.{map_domain_error-Fails}
use oficina_tech_ms_order_se.Http.Handlers.{
  AuthorizeServiceOrderRequest, Caller, Payload, Reply, advance_service_order_status_handler,
  answer_with, asked_customer, authorize_service_order_handler, bad_id,
  delete_service_order_handler, get_all_service_orders_handler, get_service_order_handler,
  get_service_order_history_handler, list_input, reply_to, respond_error_envelope, respond_mapped,
  with_uuid, advance_reply, changed_reply, deletion_reply, order_reply, respond_success,
  started_reply, authorize_decoded, list_payload, payment_reply,
}
use oficina_tech_ms_order_se.Http.Mapping.{map_domain_error}
use oficina_tech_ms_order_se.Http.Routes.{
  Request, advancing, authorizing, deleting, handle, listing, reading, tracing,
}
use oficina_tech_ms_order_se.Platform.Monad.{Action, World}
use oficina_tech_ms_order_se.Platform.Ports.{Env}
use oficina_tech_ms_order_se.Queries.Reading.{
  get_all_service_orders, get_service_order, get_service_order_history, OrderView,
}
use oficina_tech_ms_order_se.UseCases.Advance.{advance_service_order_status}
use oficina_tech_ms_order_se.UseCases.Authorization.{AuthorizationInput, respond_to_authorization}
use oficina_tech_ms_order_se.UseCases.Deletion.{delete_service_order, DeletionOutput}
use oficina_tech_ms_order_se.UseCases.Steps.{StepOutput}

abbrev IsSuccess : Reply → Type 0
IsSuccess reply =
    (reply.status ≡ 200 ⊎ reply.status ≡ 202)
    × ((p : Payload) × (reply.payload ≡ some p))
    × (reply.errors ≡ [])

abbrev pub IsFailure : ℕ → Reply → Type 0
IsFailure status reply =
    (reply.status ≡ status) × (400 ≤ status) × (reply.payload ≡ none) × (length reply.errors ≡ 1)

-- What a reply and the state after it say of a use case that has run.
abbrev pub Runs : {A : Type 0} → Action A → World → Reply → World → Type 0
Runs {A} m w reply final =
    (final ≡ (m w).1)
    × ((((output : A) × ((m w).0 ≡ ok output)) × IsSuccess reply)
        ⊎ ((failure : Error) × ((m w).0 ≡ err failure)
            × IsFailure (map_domain_error failure).status_code reply))

abbrev IsRefused : World → Reply → World → Type 0
IsRefused w reply final = (final ≡ w) × IsFailure 400 reply

-- Where the request is well formed, its use case has run, and otherwise it is refused.
abbrev pub Answers : {A : Type 0} → Bool → Action A → World → Reply → World → Type 0
Answers well_formed m w reply final =
    ((well_formed ≡ true) × Runs m w reply final)
    ⊎ ((well_formed ≡ false) × IsRefused w reply final)

abbrev authorization_input : String → Caller → AuthorizeServiceOrderRequest → AuthorizationInput
authorization_input id caller req = record {
  service_order_id = id;
  approved = req.approved;
  observation = req.notes;
  caller_id = caller.id;
  caller_role = caller.role;
}

-- The use case of each request, and when the request is well formed.
abbrev pub IsAnswered : (String → Bool) → Env → Caller → Request → World → Reply → World → Type 0
IsAnswered is_uuid env caller (listing q) w =
    Answers (is_empty (asked_customer caller q) || is_uuid (asked_customer caller q))
      (get_all_service_orders env (list_input caller q)) w
IsAnswered is_uuid env caller (reading id) w = Answers (is_uuid id) (get_service_order env id) w
IsAnswered is_uuid env caller (deleting id) w =
    Answers (is_uuid id) (delete_service_order env id none) w
IsAnswered is_uuid env caller (advancing id) w =
    Answers (is_uuid id) (advance_service_order_status env id) w
IsAnswered is_uuid env caller (authorizing id none) w = IsRefused w
IsAnswered is_uuid env caller (authorizing id (some req)) w =
    Answers (is_uuid id) (respond_to_authorization env (authorization_input id caller req)) w
IsAnswered is_uuid env caller (tracing id) w =
    Answers (is_uuid id) (get_service_order_history env id) w

module _ {A : Type 0} (reply : A → Reply) (sound : (output : A) → IsSuccess (reply output)) where
  ran :
      (m : Action A) (w : World) (r : Result A) → (m w).0 ≡ r → Runs m w (reply_to r reply) (m w).1
  unfolding respond_mapped
  ran m w (ok output) e = (refl, inl ((output, e), sound output))
  ran m w (err failure) e =
      (refl, inr (failure, e, (refl, map_domain_error-Fails failure, refl, refl)))

  answered_with :
      (m : Action A) (w : World) → Runs m w (answer_with m reply w).0 (answer_with m reply w).1
  unfolding answer_with
  answered_with m w = ran m w (m w).0 refl

  guarded :
      (b : Bool) (m : Action A) (w : World) (code complaint : String)
      → let out : Reply × World =
          if b then answer_with m reply w else (respond_error_envelope 400 code complaint, w) in
        Answers b m w out.0 out.1
  guarded true m w code complaint = inl (refl, answered_with m w)
  guarded false m w code complaint = inr (refl, (refl, (refl, ground arith, refl, refl)))

  id_guarded :
      (is_uuid : String → Bool) (id : String) (m : Action A) (w : World)
      → Answers
          (is_uuid id)
          m
          w
          (with_uuid is_uuid id bad_id (answer_with m reply) w).0
          (with_uuid is_uuid id bad_id (answer_with m reply) w).1
  unfolding with_uuid
  id_guarded is_uuid id m w = guarded (is_uuid id) m w "INVALID_UUID" bad_id

sent : (p : Payload) → IsSuccess (respond_success 200 p)
sent p = (inl refl, (p, refl), refl)

taken_up : (p : Payload) → IsSuccess (respond_success 202 p)
taken_up p = (inr refl, (p, refl), refl)

if-IsSuccess : (b : Bool) (r s : Reply) → IsSuccess r → IsSuccess s → IsSuccess (if b then r else s)
if-IsSuccess true r s f g = f
if-IsSuccess false r s f g = g

order_reply-IsSuccess :
    (started : String) (output : StepOutput) → IsSuccess (order_reply output started)
unfolding order_reply
order_reply-IsSuccess started output =
    if-IsSuccess output.async (started_reply output started) (changed_reply output) (taken_up _)
      (sent _)

deletion_reply-IsSuccess : (output : DeletionOutput) → IsSuccess (deletion_reply output)
unfolding deletion_reply
deletion_reply-IsSuccess output = if-IsSuccess output.async _ _ (taken_up _) (sent _)

payment_reply-IsSuccess :
    (output : StepOutput) (url : Option String) → IsSuccess (payment_reply output url)
payment_reply-IsSuccess output none = sent _
payment_reply-IsSuccess output (some url) = taken_up _

advance_reply-IsSuccess : (output : StepOutput) → IsSuccess (advance_reply output)
unfolding advance_reply
advance_reply-IsSuccess output =
    if-IsSuccess output.async _ _ (taken_up _) (payment_reply-IsSuccess output output.payment_url)

listing_guarded :
    (no_filter sound : Bool) (m : Action (List OrderView)) (w : World)
    → let out : Reply × World =
        if not no_filter && not sound
        then (respond_error_envelope 400 "INVALID_UUID" "Invalid customer_id format", w)
        else answer_with m (λ views. respond_success 200 (list_payload views)) w in
      Answers (no_filter || sound) m w out.0 out.1
listing_guarded true sound m w = inl (refl, answered_with _ (λ views. sent _) m w)
listing_guarded false true m w = inl (refl, answered_with _ (λ views. sent _) m w)
listing_guarded false false m w = inr (refl, (refl, (refl, ground arith, refl, refl)))

undecoded :
    (b : Bool) (w : World)
    → let out : Reply × World =
        if b
        then (respond_error_envelope 400 "INVALID_REQUEST" "Invalid request body", w)
        else (respond_error_envelope 400 "INVALID_UUID" bad_id, w) in
      IsRefused w out.0 out.1
undecoded true w = (refl, (refl, ground arith, refl, refl))
undecoded false w = (refl, (refl, ground arith, refl, refl))

-- A well-formed request is answered after its use case has run, with its state: with 200 or 202 and
-- data exactly where the use case succeeded, and otherwise with one error and the status, 400 or
-- above, of the error that it failed with. Another request gets 400, and leaves the state as it is.
pub handle-IsAnswered :
    (is_uuid : String → Bool) (env : Env) (caller : Caller) (request : Request) (w : World)
    → IsAnswered is_uuid env caller request w
        (handle is_uuid env caller request w).0
        (handle is_uuid env caller request w).1
unfolding handle with_uuid get_all_service_orders_handler get_service_order_handler
    delete_service_order_handler advance_service_order_status_handler
    authorize_service_order_handler get_service_order_history_handler authorize_decoded
handle-IsAnswered is_uuid env caller (listing q) w =
    listing_guarded (is_empty (asked_customer caller q)) (is_uuid (asked_customer caller q))
      (get_all_service_orders env (list_input caller q)) w
handle-IsAnswered is_uuid env caller (reading id) w =
    id_guarded _ (λ v. sent _) is_uuid id (get_service_order env id) w
handle-IsAnswered is_uuid env caller (deleting id) w =
    id_guarded _ deletion_reply-IsSuccess is_uuid id (delete_service_order env id none) w
handle-IsAnswered is_uuid env caller (advancing id) w =
    id_guarded _ advance_reply-IsSuccess is_uuid id (advance_service_order_status env id) w
handle-IsAnswered is_uuid env caller (authorizing id none) w = undecoded (is_uuid id) w
handle-IsAnswered is_uuid env caller (authorizing id (some req)) w =
    id_guarded _ (order_reply-IsSuccess "Service order authorization saga started") is_uuid id
      (respond_to_authorization env (authorization_input id caller req)) w
handle-IsAnswered is_uuid env caller (tracing id) w =
    id_guarded _ (λ v. sent _) is_uuid id (get_service_order_history env id) w
