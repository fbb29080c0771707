-- ===== src/Daemon/Dispatch.antt =====
-- The cases of handle_message in devitd/src/main.rs: what holds of every handler's outcome, and of a message
-- that is refused, holds of every message.
use devit.Prelude.{
  ◌≡◌, refl, ap, ◌∙◌, Bool, true, false, Option, none, some, ◌⊎◌, inl, inr, if◌then◌else◌,
}
use devit.Text.{text, text_eq}
use devit.Daemon.{Platform, Env, State, Msg, Outcome, error, silent}
use devit.Daemon.Policy.{Decision, allow, deny, need_approval}
use devit.Daemon.Signing.{verify_hmac_detailed, is_valid}
use devit.Daemon.Clients.{
  answered, handle_register, handle_heartbeat, handle_poll, handle_status_request,
}
use devit.Daemon.Delegate.{handle_delegate}
use devit.Daemon.Notify.{handle_notify}
use devit.Daemon.Approvals.{handle_approval_decision}
use devit.Daemon.Handle.{Outside, handle_screenshot, dispatch, handle_message}

-- A property of both branches is one of the conditional.
pub if_all :
    {A : Type 0} {x y : A} (P : A → Type 0) (b : Bool)
    → (b ≡ true → P x)
    → P y
    → P (if b then x else y)
if_all P true hx hy = hx refl
if_all P false hx hy = hy

-- A property of both cases of an option is one of the case split.
pub option_all :
    {A B : Type 0} {x : B} {f : A → B} (P : B → Type 0) (o : Option A)
    → (o ≡ none → P x)
    → ((a : A) → o ≡ some a → P (f a))
    → P (elim o [ none ↦ x | some a ↦ f a ])
option_all P none hx hf = hx refl
option_all P (some a) hx hf = hf a refl

pub sum_all :
    {A B C : Type 0} {f : A → C} {g : B → C} (P : C → Type 0) (o : A ⊎ B)
    → ((a : A) → P (f a))
    → ((b : B) → P (g b))
    → P (elim o [ inl a ↦ f a | inr b ↦ g b ])
sum_all P (inl a) hf hg = hf a
sum_all P (inr b) hf hg = hg b

pub decision_all :
    {B : Type 0} {x y z : B} (P : B → Type 0) (d : Decision)
    → (d ≡ deny → P x)
    → (d ≡ need_approval → P y)
    → (d ≡ allow → P z)
    → P (elim d [ deny ↦ x | need_approval ↦ y | allow ↦ z ])
decision_all P deny hx hy hz = hx refl
decision_all P need_approval hx hy hz = hy refl
decision_all P allow hx hy hz = hz refl

-- What each handler's outcome has.
pub record Handlers {Value Worker : Type 0} (p : Platform Value) (outside : Outside Value)
    (env : Env) (msg : Msg Value) (state : State Value Worker) (P : Outcome Value Worker → Type 0)
    : Type 0 where
  pub register : P (handle_register p env msg state)
  pub heartbeat : P (handle_heartbeat p env msg state)
  pub delegate : text_eq msg.msg_type (text "DELEGATE") ≡ true → P (handle_delegate p env msg state)
  pub notify : P (handle_notify p env msg state)
  pub decision :
      text_eq msg.msg_type (text "APPROVAL_DECISION") ≡ true
      → P (handle_approval_decision p env msg state)
  pub poll : P (handle_poll p msg state)
  pub status : P (handle_status_request p outside.to_value env msg state)
  pub screenshot : P (handle_screenshot p outside env msg state)
  pub unknown : P (answered silent state)

module _ {Value Worker : Type 0} (p : Platform Value) (outside : Outside Value) (env : Env)
    (msg : Msg Value) (state : State Value Worker) (P : Outcome Value Worker → Type 0) where
  dispatch_all : Handlers p outside env msg state P → P (dispatch p outside env msg state)
  unfolding dispatch
  dispatch_all h =
      if_all P (text_eq msg.msg_type (text "REGISTER")) (λ e. h.register)
        (if_all P (text_eq msg.msg_type (text "HEARTBEAT")) (λ e. h.heartbeat)
          (if_all P (text_eq msg.msg_type (text "DELEGATE")) h.delegate (
            if_all P (text_eq msg.msg_type (text "NOTIFY")) (λ e. h.notify)
              (if_all P (text_eq msg.msg_type (text "APPROVAL_DECISION")) h.decision (
                if_all P (text_eq msg.msg_type (text "POLL")) (λ e. h.poll)
                  (if_all P (text_eq msg.msg_type (text "STATUS_REQUEST")) (λ e. h.status)
                    (if_all P (text_eq msg.msg_type (text "SCREENSHOT")) (λ e. h.screenshot)
                      h.unknown)))))))

  pub handle_message_all :
      P (answered error state)
      → P (answered silent state)
      → (is_valid (verify_hmac_detailed p msg state.secret) ≡ true
          → Handlers p outside env msg state P)
      → P (handle_message p outside env msg state)
  unfolding handle_message
  handle_message_all failed refused handlers =
      option_all P (verify_hmac_detailed p msg state.secret) (λ e. failed)
        (λ check found.
          if_all P check.valid (λ v. dispatch_all (handlers (ap is_valid found ∙ v))) refused)
