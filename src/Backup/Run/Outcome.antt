-- ===== src/Backup/Run/Outcome.antt =====
-- What runBackup says of each target.
use bastion_hub.Prelude.{
  is_none, ℕ, ◌≡◌, refl, ap, sym, ◌∙◌, arith, Bool, true, false, ◌||◌, ◌&&◌, not, List, [], ◌∷◌,
  any, Text, text_eq, text_eq_sound, codes, lookup, insert, lookup-insert, Option, none, some,
  if◌then◌else◌, Bool-cases, inl, inr, Option-cases, ◌⊎◌, subst,
}
use bastion_hub.Backup.Rows.{Backup}
use bastion_hub.Backup.Retention.{RetentionCfg}
use bastion_hub.Backup.Targets.{
  BackupTarget, UnitResult, S3Config, S3UploadConfig, all_false, ids_of, version_at_least,
  upload_to, direct_s3_upload_config,
}
use bastion_hub.Backup.Run.{
  AgentAnswer, unreachable, disconnected, timed_out, answered, State, run_agent_backup,
  second_request, request_archive, record_push, push_all, after_pushes, deliver, run_backup,
}

abbrev pub agent_ok : AgentAnswer → Bool
agent_ok (unreachable e) = false
agent_ok disconnected = false
agent_ok timed_out = false
agent_ok (answered r) = r.ok

-- There is an archive: the first request gives it, or the second after a direct upload that failed.
abbrev pub archived : Option (Text × S3UploadConfig) → AgentAnswer → AgentAnswer → Bool
archived none first second = agent_ok first
archived (some d) first second = agent_ok first || agent_ok second

-- The agent has sent it to the target itself.
abbrev pub sent_direct : Option (Text × S3UploadConfig) → AgentAnswer → Bool
sent_direct none first = false
sent_direct (some d) first = agent_ok first

run_agent_backup-ok : (a : AgentAnswer) → is_none (run_agent_backup a).1 ≡ agent_ok a
unfolding run_agent_backup
run_agent_backup-ok (unreachable e) = refl
run_agent_backup-ok disconnected = refl
run_agent_backup-ok timed_out = refl
run_agent_backup-ok (answered r) = ground arith

lookup-all_false :
    (id : Text) (ids : List Text) (m : List (Text × Bool))
    → lookup id (all_false ids m)
      ≡ (if any (λ j. text_eq j id) ids then some false else lookup id m)
unfolding all_false
lookup-all_false id [] m = refl
lookup-all_false id (j ∷ ids) m =
    ground (arith, lookup-all_false id ids (insert j false m), lookup-insert j id false m)

lookup-record_push :
    (id : Text) (e : Option Text) (t : BackupTarget) (x : List (Text × Bool) × List Text)
    → lookup id (record_push e t x).0
      ≡ (if text_eq t.id id then some (is_none e) else lookup id x.0)
unfolding record_push
lookup-record_push id (some e) t (oks, errs) = lookup-insert t.id id false oks
lookup-record_push id none t (oks, errs) = lookup-insert t.id id true oks

lookup-push_all :
    (push : Text → Option Text) (id : Text) (ts : List BackupTarget)
    (x : List (Text × Bool) × List Text)
    → lookup id (push_all push ts x).0
      ≡ (if any (λ j. text_eq j id) (ids_of ts) then some (is_none (push id)) else lookup id x.0)
unfolding push_all
lookup-push_all push id [] x = refl
lookup-push_all push id (t ∷ ts) x =
    rw
      (
        lookup-push_all push id ts (record_push (push t.id) t x),
        lookup-record_push id (push t.id) t x,
      )
      (elim (Bool-cases (text_eq t.id id)) [
        | inl h ↦ rw (h, ap (λ j. is_none (push j)) (text_eq_sound t.id id h)) (ground arith)
        | inr h ↦ rw h refl
      ])

request_archive-ok :
    (b : Backup) (direct : Option (Text × S3UploadConfig)) (first second : AgentAnswer) (s : State)
    → is_none (request_archive b direct first second s).2 ≡ archived direct first second
unfolding request_archive second_request
request_archive-ok b none first second s = run_agent_backup-ok first
request_archive-ok b (some (target, cfg)) first second s =
    elim (Option-cases (run_agent_backup first).1) [
      | inl e ↦ rw (e, sym (run_agent_backup-ok first) ∙ ap is_none e) refl
      | inr (m, e) ↦
          rw (e, sym (run_agent_backup-ok first) ∙ ap is_none e) (run_agent_backup-ok second)
    ]

-- The target that the agent has sent the archive to, or the empty text.
abbrev pub direct_id : Option (Text × S3UploadConfig) → AgentAnswer → Text
direct_id none first = []
direct_id (some (target, cfg)) first = if agent_ok first then target else []

request_archive-direct :
    (b : Backup) (direct : Option (Text × S3UploadConfig)) (first second : AgentAnswer) (s : State)
    → (request_archive b direct first second s).0 ≡ direct_id direct first
unfolding request_archive second_request
request_archive-direct b none first second s = refl
request_archive-direct b (some (target, cfg)) first second s =
    elim (Option-cases (run_agent_backup first).1) [
      | inl e ↦ rw (e, sym (run_agent_backup-ok first) ∙ ap is_none e) refl
      | inr (m, e) ↦ rw (e, sym (run_agent_backup-ok first) ∙ ap is_none e) refl
    ]

module _ (rc : RetentionCfg) (now : ℕ) (push : Text → Option Text)
    (tgts done : List BackupTarget) where
  deliver-tar_ok :
      (direct : Text) (e : Option Text) (b : Backup) (ur : UnitResult) (s : State)
      → ur.tar_ok ≡ false
      → (deliver rc now push tgts done direct e b ur s).0.tar_ok ≡ is_none e
  unfolding deliver after_pushes
  deliver-tar_ok direct (some e) b ur s h = h
  deliver-tar_ok direct none b ur s h = ground arith

  deliver-target_ok :
      (direct id : Text) (e : Option Text) (b : Backup) (ur : UnitResult) (s : State)
      → lookup id ur.target_ok ≡ some false
      → any (λ j. text_eq j id) (ids_of done) ≡ true
      → (text_eq direct [] ≡ true) ⊎ (text_eq direct [] ≡ false × text_eq direct id ≡ true)
      → lookup id (deliver rc now push tgts done direct e b ur s).0.target_ok
        ≡ some (is_none e && (not (text_eq direct []) || is_none (push id)))
  unfolding deliver after_pushes
  deliver-target_ok direct id (some e) b ur s start mem d = start
  deliver-target_ok direct id none b ur s start mem (inl d) =
      rw (d, lookup-push_all push id done (ur.target_ok, []), mem) refl
  deliver-target_ok direct id none b ur s start mem (inr (d, same)) =
      rw (d, lookup-insert direct id true ur.target_ok, same) refl

-- A direct upload is one to the only target.
abbrev pub OnlyTo : List BackupTarget → Option (Text × S3UploadConfig) → Type 0
OnlyTo tgts none = Unit
OnlyTo tgts (some (target, cfg)) = ids_of tgts ≡ target ∷ []

direct_id-cases :
    (tgts : List BackupTarget) (d : Option (Text × S3UploadConfig)) (first : AgentAnswer)
    (id : Text)
    → OnlyTo tgts d
    → any (λ j. text_eq j []) (ids_of tgts) ≡ false
    → any (λ j. text_eq j id) (ids_of tgts) ≡ true
    → ((text_eq (direct_id d first) [] ≡ true)
        ⊎ (text_eq (direct_id d first) [] ≡ false × text_eq (direct_id d first) id ≡ true))
      × not (text_eq (direct_id d first) []) ≡ sent_direct d first
unfolding text_eq
direct_id-cases tgts none first id only named mem = (inl refl, refl)
direct_id-cases tgts (some (target, cfg)) first id only named mem =
    let named' : text_eq target [] ≡ false =
      ground (arith, subst (λ ids. any (λ j. text_eq j []) ids ≡ false) only named) in
    let mem' : text_eq target id ≡ true =
      ground (arith, subst (λ ids. any (λ j. text_eq j id) ids ≡ true) only mem) in
    elim (Bool-cases (agent_ok first)) [
      | inl h ↦ rw (h, named') (inr (refl, mem'), refl)
      | inr h ↦ rw h (inl refl, refl)
    ]

module _ (scan : Text → Option (ℕ × ℕ)) (decode : Text → Option S3Config)
    (join : Text → Text → Text) where
  upload_to-OnlyTo :
      (t : BackupTarget) (remote_name : Text) (c : Option S3Config)
      → OnlyTo (t ∷ []) (upload_to scan decode join t remote_name c)
  unfolding upload_to
  upload_to-OnlyTo t remote_name none = tt
  upload_to-OnlyTo t remote_name (some c) =
      elim (Bool-cases (text_eq c.endpoint [] || text_eq c.bucket [])) [
        | inl h ↦ rw h tt
        | inr h ↦ rw h refl
      ]

  direct_s3_upload_config-OnlyTo :
      (version : Text) (tgts : List BackupTarget) (remote_name : Text)
      → OnlyTo tgts (direct_s3_upload_config scan decode join version tgts remote_name)
  unfolding direct_s3_upload_config
  direct_s3_upload_config-OnlyTo version [] remote_name = tt
  direct_s3_upload_config-OnlyTo version (t ∷ u ∷ ts) remote_name = tt
  direct_s3_upload_config-OnlyTo version (t ∷ []) remote_name =
      elim (Bool-cases (
        not (version_at_least scan decode join version 2 2) || not (text_eq t.type (codes "s3")))) [
          | inl h ↦ rw h tt
          | inr h ↦ rw h (upload_to-OnlyTo t remote_name (decode t.config))
        ]

  -- If every target has a non-empty id, runBackup reports for each target whose push has ended a success
  -- exactly if there is an archive and either the agent has sent it there itself or the push has no
  -- error; there is an archive if the first request gives it, or the second after a direct upload that
  -- failed, and the unit's result says so and the error is none exactly then.
  pub run_backup_exact :
      (rc : RetentionCfg) (now : ℕ) (push : Text → Option Text) (tgts done : List BackupTarget)
      (version remote_name : Text) (first second : AgentAnswer) (stat : Option ℕ) (node_name : Text)
      (b : Backup) (s : State) (id : Text)
      → any (λ j. text_eq j []) (ids_of tgts) ≡ false
      → any (λ j. text_eq j id) (ids_of tgts) ≡ true
      → any (λ j. text_eq j id) (ids_of done) ≡ true
      → ((run_backup rc now push tgts done
            (direct_s3_upload_config scan decode join version tgts remote_name)
            first
            second
            stat
            node_name
            b
            s).0.tar_ok
          ≡ archived
              (direct_s3_upload_config scan decode join version tgts remote_name)
              first
              second)
        × (is_none
              (run_backup rc now push tgts done
                (direct_s3_upload_config scan decode join version tgts remote_name)
                first
                second
                stat
                node_name
                b
                s).1
            ≡ archived
                (direct_s3_upload_config scan decode join version tgts remote_name)
                first
                second)
        × (lookup id
              (run_backup rc now push tgts done
                (direct_s3_upload_config scan decode join version tgts remote_name)
                first
                second
                stat
                node_name
                b
                s).0.target_ok
            ≡ some (
                archived
                  (direct_s3_upload_config scan decode join version tgts remote_name)
                  first
                  second
                && (sent_direct
                      (direct_s3_upload_config scan decode join version tgts remote_name)
                      first
                    || is_none (push id))))
  unfolding run_backup
  run_backup_exact rc now push tgts done version remote_name first second stat node_name b s id
        named mem ended =
      let d = direct_s3_upload_config scan decode join version tgts remote_name in
      let asked = request_archive-ok b d first second s in
      let way =
        direct_id-cases tgts d first id (direct_s3_upload_config-OnlyTo version tgts remote_name)
          named mem in
      let req = request_archive b d first second s in
      let dir = request_archive-direct b d first second s in
      let way' =
        subst (λ (x : Text). (text_eq x [] ≡ true) ⊎ (text_eq x [] ≡ false × text_eq x id ≡ true))
          (sym dir) way.0 in
      (
        deliver-tar_ok rc now push tgts done req.0 req.2 _ _ _ refl ∙ asked,
        asked,
        deliver-target_ok rc now push tgts done req.0 id req.2 _ _ _
              (rw (lookup-all_false id (ids_of tgts) [], mem) refl) ended way'
            ∙ rw (asked, dir, way.1) refl,
      )
