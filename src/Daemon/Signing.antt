-- ===== src/Daemon/Signing.antt =====
-- The signatures of devitd/src/main.rs: the text that is signed, and how a message is checked.
use devit.Prelude.{
  ◌≡◌, ap, subst, some_inj, Bool, true, Option, none, some, [], ◌∷◌, ◌++◌, append_assoc,
  Option-cases, inl, inr,
}
use devit.Text.{Text, text, text_eq, text_eq_refl}
use devit.Tasks.{unwrap_or}
use devit.Daemon.{Platform, Msg}

-- The expected signature and the body serve the log alone.
pub record HmacCheck : Type 0 where
  pub valid : Bool
  pub expected : Text
  pub provided : Text
  pub body : Text

-- The message passes the check.
abbrev pub is_valid : Option HmacCheck → Bool
is_valid none = Bool.false
is_valid (some check) = check.valid

-- format!("{}|{}", …)
abbrev pub piped : Text → Text → Text
piped s t = s ++ (b'|' ∷ t)

piped_assoc : (a b c d : Text) → piped a (piped (piped b c) d) ≡ piped (piped a b) (piped c d)
piped_assoc a b c d = simp append_assoc

module _ {Value : Type 0} (p : Platform Value) where
  unfoldable pub canonical_body : Msg Value → Text
  canonical_body msg = piped msg.msg_type (
      piped msg.msg_id (
        piped msg.from (
          piped msg.to (
            piped (p.show msg.ts)
              (piped msg.nonce (unwrap_or (text "{}") (p.to_string msg.payload)))))))

  -- verify_slice holds for the MAC itself and for nothing else.
  unfoldable pub checked : (secret body provided : Text) → Option HmacCheck
  checked secret body provided = elim (p.mac secret body) [
    | none ↦ none
    | some bytes ↦ some record {
      valid = text_eq bytes (unwrap_or [] (p.decode provided));
      expected = p.encode bytes;
      provided = provided;
      body = body;
    }
  ]

  unfoldable pub verify_hmac_detailed : Msg Value → (secret : Text) → Option HmacCheck
  verify_hmac_detailed msg secret = checked secret (canonical_body msg) msg.hmac

  unfoldable pub sign_msg : Msg Value → (secret : Text) → Option (Msg Value)
  sign_msg msg secret = elim (p.mac secret (canonical_body msg)) [
    | none ↦ none
    | some sig ↦ some (record msg { hmac = p.encode sig })
  ]

  -- A message that is signed with a secret passes the check with the same secret, given that decoding
  -- undoes the encoding.
  pub verify-sign :
      (msg signed : Msg Value) (secret : Text)
      → ((bytes : Text) → p.decode (p.encode bytes) ≡ some bytes)
      → sign_msg msg secret ≡ some signed
      → is_valid (verify_hmac_detailed signed secret) ≡ true
  unfolding sign_msg verify_hmac_detailed checked canonical_body
  verify-sign msg signed secret decodes e =
      elim (Option-cases (p.mac secret (canonical_body msg))) [
        | inl refused ↦ cc (refused, e)
        | inr (bytes, found) ↦
            subst (λ m. is_valid (verify_hmac_detailed m secret) ≡ true)
              (some_inj (rw (found, sign_msg) at e))
              (rw (found, checked) (rw (decodes bytes) (text_eq_refl bytes)))
      ]

  -- The signed text does not say where a field ends: a message whose identifier is `a` and whose sender is
  -- `b|c` passes the check with every signature that a message with the identifier `a|b` from `c`
  -- passes with, and fails it with the same ones.
  pub verify_hmac_detailed_shifted :
      (msg : Msg Value) (a b c secret : Text)
      → verify_hmac_detailed (record msg { msg_id = a; from = piped b c }) secret
        ≡ verify_hmac_detailed (record msg { msg_id = piped a b; from = c }) secret
  unfolding verify_hmac_detailed checked canonical_body
  verify_hmac_detailed_shifted msg a b c secret =
      ap (λ body. checked secret (piped msg.msg_type body) msg.hmac) (piped_assoc a b c _)
