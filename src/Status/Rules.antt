-- ===== src/Status/Rules.antt =====
-- The transition table of invitation-status.service.ts, `assertAllowed` and `defaultReason`.
use Prim.Native.String
use wedding_saas.Base.{
  ℕ, String, Bool, true, false, ◌&&◌, Option, none, some, List, [], ◌∷◌, ◌++◌, length, any, find,
  keep, ◌==◌, if◌then◌else◌, Outcome, ok, thrown,
}
use wedding_saas.Base.Text.{is_blank}
use wedding_saas.Errors.{
  AppError, business_rule, invalid_status_transition as invalid_transition_code,
  reason_required as reason_required_code,
}

pub data InvitationStatus : Type 0 where
  draft pending_payment paid published expired soft_deleted : InvitationStatus

pub data ActorKind : Type 0 where
  user admin system : ActorKind

pub record Actor : Type 0 where
  pub kind : ActorKind
  -- null for SYSTEM
  pub user_id : Option ℕ

pub record Rule : Type 0 where
  pub to : InvitationStatus
  pub by : List ActorKind
  pub reason_required : Bool
  pub never_reached : Option InvitationStatus
  pub note : String

-- `===` on the two string unions
abbrev pub same_status : InvitationStatus → InvitationStatus → Bool
same_status draft draft = true
same_status pending_payment pending_payment = true
same_status paid paid = true
same_status published published = true
same_status expired expired = true
same_status soft_deleted soft_deleted = true
same_status _ _ = false

abbrev pub same_kind : ActorKind → ActorKind → Bool
same_kind user user = true
same_kind admin admin = true
same_kind system system = true
same_kind _ _ = false

abbrev rule : InvitationStatus → List ActorKind → String → Rule
rule to by note = record {
  to = to;
  by = by;
  reason_required = false;
  never_reached = none;
  note = note;
}

-- TRANSITIONS
unfoldable pub transitions : InvitationStatus → List Rule
transitions draft =
    rule pending_payment (user ∷ []) "checkout"
    ∷ rule paid (system ∷ []) "late payment confirmed after the order expired"
    ∷ record {
      to = published;
      by = user ∷ [];
      reason_required = false;
      never_reached = some paid;
      note = "free trial publish (BR-2.8)";
    }
    ∷ []
transitions pending_payment =
    rule paid (system ∷ []) "payment webhook confirmed"
    ∷ rule draft (system ∷ user ∷ []) "payment failed, expired, or cancelled"
    ∷ []
transitions paid = rule published (user ∷ admin ∷ []) "publish" ∷ []
transitions published =
    rule paid (user ∷ []) "unpublish — stays paid, republishable free"
    ∷ record {
      to = draft;
      by = user ∷ [];
      reason_required = false;
      never_reached = some paid;
      note = "unpublish a free trial (never paid)";
    }
    ∷ rule expired (system ∷ []) "expiry_date passed, daily job"
    ∷ []
transitions expired =
    rule published (system ∷ []) "renewal payment confirmed"
    ∷ rule soft_deleted (system ∷ []) "90 days without renewal, BR-9.1"
    ∷ []
transitions soft_deleted = []

-- FROM_ANY
unfoldable pub from_any : List Rule
from_any =
    record {
      to = draft;
      by = admin ∷ [];
      reason_required = true;
      never_reached = none;
      note = "refund (ADR-019)";
    }
    ∷ rule soft_deleted (user ∷ admin ∷ []) "user or admin deletion"
    ∷ []

-- The rules of one edge, the state's own before those from any state.
unfoldable pub rules_for : InvitationStatus → InvitationStatus → List Rule
unfolding transitions from_any
rules_for from to =
    keep (λ r. same_status r.to to) (transitions from) ++ keep (λ r. same_status r.to to) from_any

abbrev pub by_kind : ActorKind → Rule → Bool
by_kind kind r = any (λ k. same_kind k kind) r.by

-- `reason === undefined || reason.trim().length === 0`
unfoldable pub lacks_reason : Option String → Bool
lacks_reason none = true
lacks_reason (some reason) = is_blank reason

unfoldable pub assert_allowed :
    InvitationStatus → InvitationStatus → Actor → Option String → Outcome AppError Rule
unfolding rules_for
assert_allowed from to actor reason =
    if same_status from to
    then thrown (business_rule invalid_transition_code)
    else if length (rules_for from to) == 0
    then thrown (business_rule invalid_transition_code)
    else elim (find (by_kind actor.kind) (rules_for from to)) [
      | none ↦ thrown (business_rule invalid_transition_code)
      | some r ↦
          if r.reason_required && lacks_reason reason
          then thrown (business_rule reason_required_code)
          else ok r
    ]

-- `actor.kind.toLowerCase()`
abbrev kind_text : ActorKind → String
kind_text user = "user"
kind_text admin = "admin"
kind_text system = "system"

abbrev status_text : InvitationStatus → String
status_text draft = "draft"
status_text pending_payment = "pending_payment"
status_text paid = "paid"
status_text published = "published"
status_text expired = "expired"
status_text soft_deleted = "soft_deleted"

abbrev first : List Rule → Option Rule
first [] = none
first (r ∷ _) = some r

-- `rule?.note ?? "from -> to"`
abbrev note_or : Option Rule → String → String
note_or none text = text
note_or (some r) text = r.note

unfoldable pub default_reason : InvitationStatus → InvitationStatus → Actor → String
unfolding rules_for
default_reason from to actor =
    let rules = rules_for from to in
    let chosen : Option Rule = elim (find (by_kind actor.kind) rules) [
      | some r ↦ some r
      | none ↦ first rules
    ] in
    let edge = String.◌++◌ (status_text from) (String.◌++◌ " -> " (status_text to)) in
    String.◌++◌ (kind_text actor.kind) (String.◌++◌ ": " (note_or chosen edge))
