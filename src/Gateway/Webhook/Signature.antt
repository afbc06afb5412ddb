-- ===== src/Gateway/Webhook/Signature.antt =====
-- Who signs a request that the webhook lets through.
use the_watcher.Prelude.{ℕ, ◌≡◌, refl, sym, ◌⊎◌, ◌↔◌, inl, inr, Bool, true, false}
use the_watcher.Prelude.{Option, none, some, List, [], ◌∷◌, arith, Bool-cases}
use the_watcher.Prelude.{string_is_eq, nat_is_eq, list_is_eq, list_eq_iff}
use the_watcher.Text.{Text, codes, is_empty}
use the_watcher.Gateway.Db.{GowaEvent, Db}
use the_watcher.Gateway.Webhook.{
  Dispatch, chat_or_unknown, is_admitted, intake, is_signed, verify_signature, receive_webhook,
  remove_prefix, valid_secrets,
}
use the_watcher.Gateway.Webhook.Laws.{intake-Admitted}

answered :
    (now : ℕ) (event : GowaEvent) (db : Db) (b : Bool)
    → b ≡ (intake now event db).answer
    → (b ≡ false) ⊎ (is_admitted (chat_or_unknown event.chat_id) event db ≡ true)
answered now event db true h = inr (intake-Admitted now event db (sym h))
answered now event db false h = inl refl

module _ (digest : Text → Text → Text) where
  -- Some secret that is not empty signs the body so.
  abbrev pub Signs : Text → Text → List Text → Type 0
  Signs body received [] = ⊥
  Signs body received (s ∷ secrets) =
      ((is_empty s ≡ false) × (digest s body ≡ received)) ⊎ Signs body received secrets

  is_signed_iff :
      (body received : Text) (secrets : List Text)
      → (is_signed digest body received secrets ≡ true) ↔ Signs body received secrets
  unfolding is_signed
  is_signed_iff body received [] = ground arith
  is_signed_iff body received (s ∷ secrets) =
      ground (arith, is_signed_iff body received secrets, list_eq_iff (digest s body) received)

  verify_signature-Signs :
      (secrets : List Text) (body : Text) (signature : Option Text)
      → verify_signature digest secrets body signature ≡ true
      → (t : Text) × (signature ≡ some t) × Signs body (remove_prefix (codes "sha256=") t) secrets
  unfolding verify_signature
  verify_signature-Signs secrets body none h = ground (arith, h)
  verify_signature-Signs secrets body (some []) h = ground (arith, h)
  verify_signature-Signs secrets body (some (c ∷ t)) h =
      (c ∷ t, refl, (is_signed_iff body (remove_prefix (codes "sha256=") (c ∷ t)) secrets).0 h)

  module _ (parse : Text → GowaEvent) (handle : Dispatch → Db → Db) where
    receive_webhook-cases :
        (secrets : List Text) (now : ℕ) (body : Text) (signature : Option Text) (db : Db)
        → (receive_webhook parse handle digest secrets now body signature db ≡ (false, db))
          ⊎ ((verify_signature digest secrets body signature ≡ true)
              × ((receive_webhook parse handle digest secrets now body signature db).0
                  ≡ (intake now (parse body) db).answer))
    unfolding receive_webhook
    receive_webhook-cases secrets now body signature db =
        elim (Bool-cases (verify_signature digest secrets body signature)) [
          | inl e ↦ inr (e, rw e refl)
          | inr e ↦ inl (rw e refl)
        ]

    -- A request is answered with true only if one of the secrets that are set and not empty signs
    -- its body, and its event is from a group that is watched or is a setup input. A request
    -- without such a signature changes nothing and runs no handler.
    pub receive_webhook-Signed :
        (current : Text) (previous : Option Text) (now : ℕ) (body : Text) (signature : Option Text)
        (db : Db)
        → let secrets = valid_secrets current previous in
          let out = receive_webhook parse handle digest secrets now body signature db in
          let event = parse body in
          (out ≡ (false, db))
          ⊎ ((t : Text) × (signature ≡ some t)
              × Signs body (remove_prefix (codes "sha256=") t) secrets
              × ((out.0 ≡ false) ⊎ (is_admitted (chat_or_unknown event.chat_id) event db ≡ true)))
    receive_webhook-Signed current previous now body signature db =
        elim (receive_webhook-cases (valid_secrets current previous) now body signature db) [
          | inl refused ↦ inl refused
          | inr (signed, same) ↦
              let s =
                verify_signature-Signs (valid_secrets current previous) body signature signed in
              inr (s.0, s.1, s.2, answered now (parse body) db _ same)
        ]
