-- ===== src/Core/Requests.antt =====
-- The requests to the daemon: `handle_requests` of native/src/core/daemon.rs with both handlers, and
-- `su_daemon_handler` of native/src/core/su/daemon.rs. One request is served to its end.
pub mod Permission
pub mod Order
pub mod Shell
mod Tests
use magisk_t.Prelude.{
  ℕ, ◌+◌, Bool, true, not, ◌&&◌, ◌||◌, Option, none, some, List, [], ◌∷◌, ◌++◌, ltb, ◌==◌,
  if◌then◌else◌, Bytes, codes, bytes_eq, ◌>>=◌, Outcome, ok, err, panic,
}
use magisk_t.Core.Socket.{
  Decoder, pod, read_pod, write_pod, decode_bool, decode_string, decode_vec, encode_str,
}
use magisk_t.Core.Settings.{Database, get_db_setting, su_mnt_ns}
use magisk_t.Core.Stages.{
  Daemon, Device, StageCode, boot_stage_handler, post_fs_data_code, late_start_code,
  boot_complete_code, with_db,
}

-- The client: its credentials, its SELinux context and whether it still reads.
pub record Peer : Type 0 where
  pub uid : ℕ
  pub context : Bytes
  pub is_client : Bool
  pub writable : Bool

pub data RequestCode : Type 0 where
  start_daemon : RequestCode
  check_version : RequestCode
  check_version_code : RequestCode
  stop_daemon : RequestCode
  superuser : RequestCode
  zygote_restart : RequestCode
  denylist : RequestCode
  sqlite_cmd : RequestCode
  remove_modules : RequestCode
  zygisk : RequestCode
  stage : StageCode → RequestCode

unfoldable pub repr : RequestCode → ℕ
repr start_daemon = 0
repr check_version = 1
repr check_version_code = 2
repr stop_daemon = 3
repr superuser = 5
repr zygote_restart = 6
repr denylist = 7
repr sqlite_cmd = 8
repr remove_modules = 9
repr zygisk = 10
repr (stage post_fs_data_code) = 12
repr (stage late_start_code) = 13
repr (stage boot_complete_code) = 14

-- The barriers 4 and 11 and all from `END` on are unknown; so is a negative number.
unfoldable pub request_code : ℕ → Option RequestCode
request_code n =
    if not (ltb n 15) || n == 4 || n == 11
    then none
    else if n == 0
    then some start_daemon
    else if n == 1
    then some check_version
    else if n == 2
    then some check_version_code
    else if n == 3
    then some stop_daemon
    else if n == 5
    then some superuser
    else if n == 6
    then some zygote_restart
    else if n == 7
    then some denylist
    else if n == 8
    then some sqlite_cmd
    else if n == 9
    then some remove_modules
    else if n == 10
    then some zygisk
    else if n == 12
    then some (stage post_fs_data_code)
    else if n == 13
    then some (stage late_start_code)
    else some (stage boot_complete_code)

unfoldable pub is_zygote : Peer → Bool
is_zygote peer = bytes_eq peer.context (codes "u:r:zygote:s0")

-- The permission checks: the `RespondCode` that refuses the peer.
unfoldable pub refused : Peer → RequestCode → Option ℕ
unfolding is_zygote
refused peer (stage code) = if peer.uid == 0 then none else some 1
refused peer zygote_restart = if peer.uid == 0 then none else some 1
refused peer sqlite_cmd = if peer.uid == 0 then none else some 1
refused peer denylist = if peer.uid == 0 then none else some 1
refused peer stop_daemon = if peer.uid == 0 then none else some 1
refused peer remove_modules = if peer.uid == 0 || peer.uid == 2000 then none else some 2
refused peer zygisk = if is_zygote peer then none else some 2
refused peer _ = none

-- Nothing reaches a client that is gone.
unfoldable pub respond : Peer → ℕ → Bytes
unfolding write_pod
respond peer code = if peer.writable then write_pod 4 code else []

-- The permission checks, and the `OK` that comes before the handler.
unfoldable pub grant : Peer → RequestCode → Bytes → Bytes × Option (RequestCode × Bytes)
unfolding refused respond
grant peer code rest = elim (refused peer code) [
  | some refusal ↦ (respond peer refusal, none)
  | none ↦ if peer.writable then (respond peer 0, some (code, rest)) else ([], none)
]

-- What is answered, and the request that is handled with the rest of the input. A code that cannot
-- be read stays -1, which is unknown.
unfoldable pub handle_requests : Peer → Bytes → Bytes × Option (RequestCode × Bytes)
unfolding is_zygote read_pod request_code grant respond
handle_requests peer input =
    if not (peer.uid == 0) && not (is_zygote peer) && not peer.is_client
    then (respond peer 2, none)
    else elim (read_pod 4 input) [
      | ok (number, rest) ↦ elim (request_code number) [
        | none ↦ ([], none)
        | some code ↦ grant peer code rest
      ]
      | err ↦ ([], none)
      | panic ↦ ([], none)
    ]

pub record SuRequest : Type 0 where
  pub target_uid : ℕ
  pub target_pid : ℕ
  pub login : Bool
  pub keep_env : Bool
  pub drop_cap : Bool
  pub shell : Bytes
  pub command : Bytes
  pub context : Bytes
  pub gids : List ℕ

unfoldable pub decode_su_request : Decoder SuRequest
unfolding decode_bool decode_string decode_vec read_pod
decode_su_request input = do
  (target_uid, input1) ← read_pod 4 input
  (target_pid, input2) ← read_pod 4 input1
  (login, input3) ← decode_bool input2
  (keep_env, input4) ← decode_bool input3
  (drop_cap, input5) ← decode_bool input4
  (shell, input6) ← decode_string input5
  (command, input7) ← decode_string input6
  (context, input8) ← decode_string input7
  (gids, rest) ← decode_vec (pod 4) input8
  ok (
    record {
      target_uid = target_uid;
      target_pid = target_pid;
      login = login;
      keep_env = keep_env;
      drop_cap = drop_cap;
      shell = shell;
      command = command;
      context = context;
      gids = gids;
    },
    rest,
  )

-- What a handler makes other code do.
pub data Action : Type 0 where
  setup_logfile : Action
  denylist_handler : Bytes → Action
  unload_denylist : Action
  restore_prop : Action
  exit : Action
  exec_root_shell : SuRequest → ℕ → Action
  scan_deny_apps : Action
  zygisk_reset : Action
  remove_all_modules : Action
  reboot : Action
  zygisk_handler : Bytes → Action

-- What a request leaves: the bytes it answers, the daemon, and the actions in order.
pub record Served : Type 0 where
  pub answer : Bytes
  pub daemon : Daemon
  pub actions : List Action

unfoldable pub served : Bytes → Daemon → List Action → Outcome Served
served answer d actions = ok (record { answer = answer; daemon = d; actions = actions })

-- The row that `db_exec_for_cli` prints.
unfoldable pub print_row : List (Bytes × Bytes) → Bytes
print_row [] = []
print_row ((column, text) ∷ []) = column ++ codes "=" ++ text
print_row ((column, text) ∷ cell ∷ row) =
    let later = print_row (cell ∷ row) in column ++ codes "=" ++ text ++ codes "|" ++ later

-- Which uids the denylist covers, what `denylist_handler`, which is C++, makes of the database for the
-- bytes of a client, what an SQL command yields, and what the shell exits with, if it can be forked;
-- the version is generated at build time.
pub record Environment : Type 0 where
  pub is_deny_target_uid : ℕ → Bool
  pub denylist_db : Bytes → Database → Database
  pub db_exec_with_rows : Bytes → Database → List (List (Bytes × Bytes)) × Database
  pub child_status : Option ℕ
  pub version : Bytes
  pub version_code : ℕ

unfoldable pub write_rows : List (List (Bytes × Bytes)) → Bytes
unfolding encode_str print_row
write_rows [] = encode_str []
write_rows (row ∷ rows) = encode_str (print_row row) ++ write_rows rows

module _ (env : Environment) where
  unfoldable pub root_allowed : ℕ → Bool
  root_allowed uid = if uid == 0 then true else not (env.is_deny_target_uid uid)

  -- `SuPolicy::Deny` is 1; the child acknowledges with 0, and its exit status comes last.
  unfoldable pub su_daemon_handler : Device → Peer → Bytes → Daemon → Outcome Served
  unfolding served root_allowed decode_su_request get_db_setting write_pod
  su_daemon_handler dev peer input d = elim (decode_su_request input) [
    | err ↦ served (write_pod 4 1) d []
    | panic ↦ panic
    | ok (req, rest) ↦
        if not (root_allowed peer.uid) then served (write_pod 4 1) d [] else elim env.child_status [
          | none ↦ served [] d []
          | some status ↦
              served (write_pod 4 0 ++ write_pod 4 status) d
                (exec_root_shell req (get_db_setting dev.is_emulator d.db su_mnt_ns) ∷ [])
        ]
  ]

  unfoldable pub db_exec_for_cli : Bytes → Daemon → Outcome Served
  unfolding served decode_string write_rows with_db
  db_exec_for_cli input d = elim (decode_string input) [
    | err ↦ served [] d []
    | panic ↦ panic
    | ok (sql, rest) ↦
        let (rows, db) = env.db_exec_with_rows sql d.db in
        served (write_rows rows) (with_db db d) []
  ]

  unfoldable pub handle_request_sync : RequestCode → Daemon → Outcome Served
  unfolding served encode_str write_pod
  handle_request_sync check_version d = served (encode_str (env.version ++ codes ":MAGISK:R")) d []
  handle_request_sync check_version_code d = served (write_pod 4 env.version_code) d []
  handle_request_sync start_daemon d = served [] d (setup_logfile ∷ [])
  handle_request_sync stop_daemon d =
      served (write_pod 4 0) d (unload_denylist ∷ restore_prop ∷ exit ∷ [])
  handle_request_sync _ d = served [] d []

  -- A flag that cannot be read is `false`.
  unfoldable pub handle_request_async :
      Device → Peer → RequestCode → Bytes → Daemon → Outcome Served
  unfolding served su_daemon_handler db_exec_for_cli decode_bool write_pod with_db
  handle_request_async dev peer denylist input d =
      served [] (with_db (env.denylist_db input d.db) d) (denylist_handler input ∷ [])
  handle_request_async dev peer superuser input d = su_daemon_handler dev peer input d
  handle_request_async dev peer zygote_restart input d =
      served [] d (scan_deny_apps ∷ (if d.zygisk_enabled then zygisk_reset ∷ [] else []))
  handle_request_async dev peer sqlite_cmd input d = db_exec_for_cli input d
  handle_request_async dev peer remove_modules input d = elim (decode_bool input) [
    | ok (do_reboot, rest) ↦
        served (write_pod 4 0) d (remove_all_modules ∷ (if do_reboot then reboot ∷ [] else []))
    | err ↦ served (write_pod 4 0) d (remove_all_modules ∷ [])
    | panic ↦ panic
  ]
  handle_request_async dev peer zygisk input d = served [] d (zygisk_handler input ∷ [])
  handle_request_async dev peer _ input d = served [] d []

  unfoldable pub dispatch : Device → Peer → RequestCode → Bytes → Daemon → Outcome Served
  unfolding handle_request_sync handle_request_async boot_stage_handler served repr
  dispatch dev peer (stage code) input d = served [] (boot_stage_handler dev code d) []
  dispatch dev peer code input d =
      if ltb (repr code) 4
      then handle_request_sync code d
      else handle_request_async dev peer code input d

  unfoldable pub serve : Device → Peer → Bytes → Daemon → Outcome Served
  unfolding handle_requests dispatch served
  serve dev peer input d =
      let (answer, task) = handle_requests peer input in
      elim task [
        | none ↦ served answer d []
        | some (code, rest) ↦ elim (dispatch dev peer code rest d) [
          | ok done ↦ served (answer ++ done.answer) done.daemon done.actions
          | err ↦ err
          | panic ↦ panic
        ]
      ]
