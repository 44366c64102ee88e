-- ===== src/Go2Rtc/Actor/Backup.antt =====
-- actor/Go2RTCActor.go: the order in which `removeStream` writes the backup and asks for the removal.
use go2rtc_manager.Prelude.{◌≡◌, refl, ◌⊎◌, inl, inr, Bool, true, false, List, ◌∷◌, ◌++◌, All}
use go2rtc_manager.Prelude.Results.{ok, Result-cases}
use go2rtc_manager.Prelude.Text.{Text, codes}
use go2rtc_manager.Time.{Time}
use go2rtc_manager.Go2Rtc.Calls.{Call, reads_file, writes_file, exchanges, Api}
use go2rtc_manager.Go2Rtc.Actor.{Go2RtcActor, create_backup, backup_if_asked, remove_stream_call}

abbrev pub is_exchange : Call → Bool
is_exchange (exchanges request) = true
is_exchange _ = false

-- The name of the backup file at a time.
abbrev pub backup_path : Api → Time → Go2RtcActor → Text
backup_path api now a =
    a.config.go2rtc.config_path ++ (codes "." ++ (api.local_stamp now ++ codes ".bak"))

-- The calls start with a read of the configuration that worked, and a write of what it read to
-- the backup file that worked.
pub record BacksUp (api : Api) (now : Time) (a : Go2RtcActor) (calls : List Call) : Type 0 where
  pub raw : Text
  pub rest : List Call
  pub read : api.read_file a.config.go2rtc.config_path ≡ ok raw
  pub written : api.write_file (backup_path api now a) raw ≡ ok tt
  pub order :
      calls
      ≡ reads_file a.config.go2rtc.config_path ∷ writes_file (backup_path api now a) raw ∷ rest

-- When backups are asked for, and whatever the files and go2rtc answer, a removal calls go2rtc
-- over HTTP only after it read the configuration file and wrote the text that it read to the
-- backup file, both without an error; else it makes no HTTP call.
pub remove_stream_call-BacksUp :
    (api : Api) (now : Time) (a : Go2RtcActor) (stream_name : Text)
    → a.config.go2rtc.backup_before_change ≡ true
    → All (λ c. is_exchange c ≡ false) (remove_stream_call api now a stream_name).0
      ⊎ BacksUp api now a (remove_stream_call api now a stream_name).0
unfolding remove_stream_call backup_if_asked create_backup
remove_stream_call-BacksUp api now a stream_name h =
    elim (Result-cases (api.read_file a.config.go2rtc.config_path)) [
      | inr (e, f) ↦ rw (h, f) (inl (refl, tt))
      | inl (raw, f) ↦ elim (Result-cases (api.write_file (backup_path api now a) raw)) [
        | inr (e, g) ↦ rw (h, f, g) (inl (refl, (refl, tt)))
        | inl (u, g) ↦
            rw (h, f, g) (inr (record { raw = raw; rest = _; read = f; written = g; order = refl }))
      ]
    ]
