-- ===== src/Agent/Upgrade/Rewrites.antt =====
-- What an upgrade leaves of the Compose file.
use bastion_hub.Prelude.{
  ◌≡◌, refl, ap, ◌∙◌, Bool, true, false, ◌&&◌, not, List, [], Text, text_eq, lookup, insert, Option,
  none, some, is_none, if◌then◌else◌, Bool-cases, inl, inr,
}
use bastion_hub.Agent.Upgrade.{
  Service, Files, refuses, with_image, write_compose, rewrite_service, rewrite_doc, rewrite_text,
  rewrite_compose_image, after_rewrite, after_pull, upgrade_action,
}

-- The upgrade comes as far as the file.
abbrev pub reaches : Text → Bool → Option Text → Bool
reaches new_image has_compose pull_err =
    not (text_eq new_image []) && has_compose && is_none pull_err

after_rewrite-files :
    (x : Files × Option Text) (up_err ready_err : Option Text)
    → ((after_rewrite x up_err ready_err).0 ≡ x.0)
      × (is_none (after_rewrite x up_err ready_err).1
          ≡ (is_none x.1 && is_none up_err && is_none ready_err))
unfolding after_rewrite
after_rewrite-files (f, some e) up_err ready_err = (refl, refl)
after_rewrite-files (f, none) (some e) ready_err = (refl, refl)
after_rewrite-files (f, none) none ready_err = (refl, refl)

module _ (decode : Text → Option (List (Text × Service)))
    (encode : List (Text × Service) → Option Text) (new_image service text out : Text)
    (doc : List (Text × Service)) (svc : Service) (files : Files) (read : files.compose ≡ some text)
    (parsed : decode text ≡ some doc) (found : lookup service doc ≡ some svc)
    (written : encode (insert service (with_image new_image svc) doc) ≡ some out) where
  abbrev rewritten : Files
  rewritten = record { compose = some out; bak = some text }

  rewrite_refused :
      refuses svc.image new_image ≡ true
      → ((rewrite_compose_image decode encode true true service new_image files).0 ≡ files)
        × (is_none (rewrite_compose_image decode encode true true service new_image files).1
            ≡ false)
  unfolding rewrite_compose_image rewrite_text rewrite_doc rewrite_service
  rewrite_refused h = rw (read, parsed, found, h) (refl, refl)

  rewrite_done :
      refuses svc.image new_image ≡ false
      → rewrite_compose_image decode encode true true service new_image files ≡ (rewritten, none)
  unfolding rewrite_compose_image rewrite_text rewrite_doc rewrite_service write_compose
  rewrite_done h = rw (read, parsed, found, h, written) refl

  after_pull-files :
      (pull_err up_err ready_err : Option Text)
      → ((after_pull decode encode true true pull_err service new_image up_err ready_err files).0
          ≡ (if is_none pull_err && not (refuses svc.image new_image) then rewritten else files))
        × (is_none
              (after_pull decode encode true true pull_err service new_image up_err ready_err
                files).1
            ≡ (is_none pull_err
                && not (refuses svc.image new_image)
                && is_none up_err
                && is_none ready_err))
  unfolding after_pull
  after_pull-files (some e) up_err ready_err = (refl, refl)
  after_pull-files none up_err ready_err =
      let after =
        after_rewrite-files (rewrite_compose_image decode encode true true service new_image files)
          up_err ready_err in
      elim (Bool-cases (refuses svc.image new_image)) [
        | inl h ↦
            let r = rewrite_refused h in
            rw h (after.0 ∙ r.0, after.1 ∙ ap (λ b. b && is_none up_err && is_none ready_err) r.1)
        | inr h ↦
            let r = rewrite_done h in
            rw h (
              after.0 ∙ ap (λ x. x.0) r,
              after.1
                  ∙ ap
                      (λ (x : Files × Option Text).
                        is_none x.1 && is_none up_err && is_none ready_err)
                      r,
            )
      ]

-- For a service that the Compose file has, where the files can be written: an upgrade changes the
-- files exactly if there is an image, compose is found, the pull succeeds and no major version is
-- crossed, and then the file has the service under its new image and the copy has the old text,
-- whether or not compose and the container succeed; it ends without an error exactly if these do too.
pub upgrade_action_exact :
    (decode : Text → Option (List (Text × Service))) (encode : List (Text × Service) → Option Text)
    (new_image service text out : Text) (doc : List (Text × Service)) (svc : Service)
    (has_compose : Bool) (pull_err up_err ready_err : Option Text) (files : Files)
    → files.compose ≡ some text
    → decode text ≡ some doc
    → lookup service doc ≡ some svc
    → encode (insert service (with_image new_image svc) doc) ≡ some out
    → ((upgrade_action decode encode true true new_image
          (some service)
          has_compose
          pull_err
          up_err
          ready_err
          files).0
        ≡ (if reaches new_image has_compose pull_err && not (refuses svc.image new_image)
            then record { compose = some out; bak = some text }
            else files))
      × (is_none
            (upgrade_action decode encode true true new_image
              (some service)
              has_compose
              pull_err
              up_err
              ready_err
              files).1
          ≡ (reaches new_image has_compose pull_err
              && not (refuses svc.image new_image)
              && is_none up_err
              && is_none ready_err))
unfolding upgrade_action after_pull
upgrade_action_exact decode encode new_image service text out doc svc has_compose pull_err up_err
      ready_err files read parsed found written =
    let pulled =
      after_pull-files decode encode new_image service text out doc svc files read parsed found
        written pull_err up_err ready_err in
    elim (Bool-cases (text_eq new_image [])) [
      | inl h ↦ rw h (refl, refl)
      | inr h ↦ elim (Bool-cases has_compose) [
        | inl c ↦ rw (h, c) pulled
        | inr c ↦ rw (h, c) (refl, refl)
      ]
    ]
