-- ===== src/Core/Requests/Order.antt =====
-- The boot stages under all requests to the daemon (native/src/core/daemon.rs).
use magisk_t.Prelude.{◌≡◌, sym, subst, inl, inr, List, [], ◌∷◌, Bytes, Outcome, ok, err, panic}
use magisk_t.Core.Socket.{decode_string}
use magisk_t.Core.Settings.{Database}
use magisk_t.Core.Stages.{Daemon, Device, with_db}
use magisk_t.Core.Stages.Machine.{IsSound, fresh, fresh-IsSound, IsSound-boot_stage_handler}
use magisk_t.Core.Requests.{
  Peer, RequestCode, start_daemon, check_version, check_version_code, stop_daemon, superuser,
  zygote_restart, denylist, sqlite_cmd, remove_modules, zygisk, stage, repr, Served, served,
  Environment, su_daemon_handler, db_exec_for_cli, handle_request_sync, handle_request_async,
  dispatch, serve,
}
use magisk_t.Core.Requests.Permission.{
  Leaves, su_daemon_handler-daemon, remove_modules-daemon, serve-Leaves, Outcome-cases,
}

Leaves-mono :
    {P Q : Served → Type 0} (out : Outcome Served)
    → Leaves P out
    → ((done : Served) → P done → Q done)
    → Leaves Q out
unfolding Leaves
Leaves-mono (ok done) p f = f done p
Leaves-mono err p f = tt
Leaves-mono panic p f = tt

IsSound-with_db : (d : Daemon) (db : Database) → IsSound d → IsSound (with_db db d)
unfolding with_db
IsSound-with_db d db s = record {
  late_after = s.late_after;
  late_not_safe = s.late_not_safe;
  complete_after = s.complete_after;
  safe_after = s.safe_after;
  loads_once = s.loads_once;
  loads_after = s.loads_after;
  loads_not_safe = s.loads_not_safe;
}

IsSound-db_exec_for_cli :
    (env : Environment) (input : Bytes) (d : Daemon)
    → IsSound d
    → Leaves (λ done. IsSound done.daemon) (db_exec_for_cli env input d)
unfolding db_exec_for_cli Leaves served
IsSound-db_exec_for_cli env input d s = elim (Outcome-cases (decode_string input)) [
  | inl ((sql, rest), e) ↦
      rw (e, db_exec_for_cli) (IsSound-with_db d (env.db_exec_with_rows sql d.db).1 s)
  | inr (inl e) ↦ rw (e, db_exec_for_cli) s
  | inr (inr e) ↦ rw (e, db_exec_for_cli) tt
]

dispatch-IsSound :
    (env : Environment) (dev : Device) (peer : Peer) (code : RequestCode) (input : Bytes)
    (d : Daemon)
    → IsSound d
    → Leaves (λ done. IsSound done.daemon) (dispatch env dev peer code input d)
unfolding dispatch handle_request_sync handle_request_async Leaves served repr
dispatch-IsSound env dev peer start_daemon input d s = s
dispatch-IsSound env dev peer check_version input d s = s
dispatch-IsSound env dev peer check_version_code input d s = s
dispatch-IsSound env dev peer stop_daemon input d s = s
dispatch-IsSound env dev peer superuser input d s =
    Leaves-mono (su_daemon_handler env dev peer input d)
      (su_daemon_handler-daemon env dev peer input d) (λ done same. subst IsSound (sym same) s)
dispatch-IsSound env dev peer zygote_restart input d s = s
dispatch-IsSound env dev peer denylist input d s = IsSound-with_db d (env.denylist_db input d.db) s
dispatch-IsSound env dev peer sqlite_cmd input d s = IsSound-db_exec_for_cli env input d s
dispatch-IsSound env dev peer remove_modules input d s =
    Leaves-mono (handle_request_async env dev peer remove_modules input d)
      (remove_modules-daemon env dev peer input d) (λ done same. subst IsSound (sym same) s)
dispatch-IsSound env dev peer zygisk input d s = s
dispatch-IsSound env dev peer (stage code) input d s = IsSound-boot_stage_handler dev code d s

pub record Request : Type 0 where
  pub env : Environment
  pub dev : Device
  pub peer : Peer
  pub input : Bytes

-- Whatever clients connect one after the other. A handler that panics ends the daemon.
unfoldable pub serve_all : List Request → Daemon → Outcome Daemon
unfolding serve
serve_all [] d = ok d
serve_all (r ∷ requests) d = elim (serve r.env r.dev r.peer r.input d) [
  | ok done ↦ serve_all requests done.daemon
  | err ↦ err
  | panic ↦ panic
]

serve_all-kept :
    (requests : List Request) (d after : Daemon)
    → IsSound d
    → serve_all requests d ≡ ok after
    → IsSound after
unfolding serve_all Leaves
serve_all-kept [] d after s h = subst IsSound (cc h) s
serve_all-kept (r ∷ requests) d after s h =
    go (serve r.env r.dev r.peer r.input d)
      (serve-Leaves (λ e actions. IsSound e) r.env r.dev r.peer r.input d s
        (λ code rest allowed. dispatch-IsSound r.env r.dev r.peer code rest d s))
      (λ next left e. serve_all-kept requests next after left e) h
  where
    go :
        (out : Outcome Served)
        → Leaves (λ done. IsSound done.daemon) out
        → ((next : Daemon) → IsSound next → serve_all requests next ≡ ok after → IsSound after)
        → elim out [ ok done ↦ serve_all requests done.daemon | err ↦ err | panic ↦ panic ]
          ≡ ok after
        → IsSound after
    go (ok done) left later e = later done.daemon left e
    go err left later e = absurd (cc e)
    go panic left later e = absurd (cc e)

-- Whatever clients with whatever credentials send to a fresh daemon, as long as no request makes it
-- panic: late start and boot complete were only reached behind post-fs-data, late start never in safe
-- mode, and the modules were loaded once at most, and in safe mode not at all.
pub serve_all-IsSound :
    (requests : List Request) (db : Database) (after : Daemon)
    → serve_all requests (fresh db) ≡ ok after
    → IsSound after
serve_all-IsSound requests db after h =
    serve_all-kept requests (fresh db) after (fresh-IsSound db) h
