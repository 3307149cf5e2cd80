-- ===== src/Core/Requests/Tests.antt =====
-- Runs of native/src/core/daemon.rs, and the theorems at concrete inputs.
use magisk_t.Prelude.{
  ℕ, ◌≡◌, refl, ◌⊎◌, true, false, some, [], ◌∷◌, ◌++◌, ◌==◌, Bytes, codes, ok, panic,
}
use magisk_t.Core.Socket.{write_pod, encode_str, encode_len, decode_len, decode_each}
use magisk_t.Prelude.Utf8.{is_utf8}
use magisk_t.Core.Stages.{boot_stage_handler, post_fs_data_code}
use magisk_t.Core.Stages.Machine.{IsSound, fresh}
use magisk_t.Core.Stages.Tests.{phone, empty_db}
use magisk_t.Core.Requests.{Peer, Served, Environment, serve, exec_root_shell}
use magisk_t.Core.Requests.Permission.{Limited, serve-not_root}
use magisk_t.Core.Requests.Order.{Request, serve_all, serve_all-IsSound}
use magisk_t.Core.Requests.Shell.{shells, serve-shells}

abbrev peer_of : ℕ → Peer
peer_of uid = record {
  uid = uid;
  context = codes "u:r:untrusted_app:s0";
  is_client = true;
  writable = true;
}

-- The denylist covers one app.
abbrev env : Environment
env = record {
  is_deny_target_uid = λ uid. uid == 10001;
  denylist_db = λ input db. db;
  db_exec_with_rows = λ sql db. ([], db);
  child_status = some 0;
  version = codes "30.2";
  version_code = 30200;
}

abbrev su_request : Bytes
su_request =
    write_pod 4 5
    ++ write_pod 4 0
    ++ write_pod 4 7
    ++ (0 ∷ 0 ∷ 0 ∷ [])
    ++ encode_str (codes "sh")
    ++ encode_str (codes "id")
    ++ encode_str []
    ++ write_pod 4 0

abbrev granted : Served
granted = record {
  answer = 0 ∷ 0 ∷ 0 ∷ 0 ∷ 0 ∷ 0 ∷ 0 ∷ 0 ∷ 0 ∷ 0 ∷ 0 ∷ 0 ∷ [];
  daemon = fresh empty_db;
  actions =
      exec_root_shell
        (record {
          target_uid = 0;
          target_pid = 7;
          login = false;
          keep_env = false;
          drop_cap = false;
          shell = codes "sh";
          command = codes "id";
          context = [];
          gids = [];
        })
        1
      ∷ [];
}

su_run : serve env phone (peer_of 10002) su_request (fresh empty_db) ≡ ok granted
unfolding serve fresh write_pod encode_str encode_len decode_len is_utf8 decode_each
su_run = refl

abbrev denied : Served
denied = record {
  answer = 0 ∷ 0 ∷ 0 ∷ 0 ∷ 1 ∷ 0 ∷ 0 ∷ 0 ∷ [];
  daemon = fresh empty_db;
  actions = [];
}

denied_run : serve env phone (peer_of 10001) su_request (fresh empty_db) ≡ ok denied
unfolding serve fresh write_pod encode_str encode_len decode_len is_utf8 decode_each
denied_run = refl

-- A length below zero makes the reader panic.
panic_run :
    serve env phone
      (peer_of 10002)
      (write_pod 4 5 ++ write_pod 4 0 ++ write_pod 4 7 ++ (0 ∷ 0 ∷ 0 ∷ 255 ∷ 255 ∷ 255 ∷ 255 ∷ []))
      (fresh empty_db)
    ≡ panic
unfolding serve fresh write_pod decode_len
panic_run = refl

abbrev stage_request : Request
stage_request = record { env = env; dev = phone; peer = peer_of 0; input = 12 ∷ 0 ∷ 0 ∷ 0 ∷ [] }

staged_run :
    serve_all (stage_request ∷ []) (fresh empty_db)
    ≡ ok (boot_stage_handler phone post_fs_data_code (fresh empty_db))
unfolding serve_all boot_stage_handler fresh
staged_run = refl

serve-not_root_example : Limited (peer_of 10002) (fresh empty_db) granted.daemon granted.actions
serve-not_root_example =
    serve-not_root env phone (peer_of 10002) su_request (fresh empty_db) granted (λ h. cc h) su_run

serve-shells_example : ((peer_of 10002).uid ≡ 0) ⊎ (env.is_deny_target_uid 10002 ≡ false)
unfolding shells
serve-shells_example =
    serve-shells env phone (peer_of 10002) su_request (fresh empty_db) granted su_run (λ h. cc h)

serve_all-IsSound_example : IsSound (boot_stage_handler phone post_fs_data_code (fresh empty_db))
serve_all-IsSound_example =
    serve_all-IsSound (stage_request ∷ []) empty_db
      (boot_stage_handler phone post_fs_data_code (fresh empty_db)) staged_run
