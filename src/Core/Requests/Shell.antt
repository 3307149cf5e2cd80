-- ===== src/Core/Requests/Shell.antt =====
-- Who gets a root shell (native/src/core/su/daemon.rs).
use magisk_t.Prelude.{
  ℕ, ◌+◌, ◌≡◌, refl, ◌≢◌, ◌⊎◌, inl, inr, true, false, List, [], ◌∷◌, arith, ◌==◌, Bool-cases,
  Option-cases, Bytes, ok,
}
use magisk_t.Core.Socket.{decode_bool, decode_string}
use magisk_t.Core.Stages.{Daemon, Device}
use magisk_t.Core.Requests.{
  Peer, RequestCode, start_daemon, check_version, check_version_code, stop_daemon, superuser,
  zygote_restart, denylist, sqlite_cmd, remove_modules, zygisk, stage, repr, Action,
  exec_root_shell, Served, served, Environment, root_allowed, su_daemon_handler, db_exec_for_cli,
  handle_request_sync, handle_request_async, dispatch, serve, decode_su_request,
}
use magisk_t.Core.Requests.Permission.{Leaves, Leaves-ok, serve-Leaves, Outcome-cases}

-- The shells that a request starts.
unfoldable pub shells : List Action → ℕ
shells [] = 0
shells (exec_root_shell req ns ∷ actions) = 1 + shells actions
shells (_ ∷ actions) = shells actions

Allowed : Environment → Peer → List Action → Type 0
Allowed env peer actions = (shells actions ≡ 0) ⊎ (root_allowed env peer.uid ≡ true)

su_daemon_handler-Allowed :
    (env : Environment) (dev : Device) (peer : Peer) (input : Bytes) (d : Daemon)
    → Leaves (λ done. Allowed env peer done.actions) (su_daemon_handler env dev peer input d)
unfolding su_daemon_handler Leaves served Allowed shells
su_daemon_handler-Allowed env dev peer input d = elim (Outcome-cases (decode_su_request input)) [
  | inl ((req, rest), e) ↦ elim (Bool-cases (root_allowed env peer.uid)) [
    | inl allowed ↦ elim (Option-cases env.child_status) [
      | inl failed ↦ rw (e, su_daemon_handler, allowed, failed) (inr refl)
      | inr (status, is) ↦ rw (e, su_daemon_handler, allowed, is) (inr refl)
    ]
    | inr deny ↦ rw (e, su_daemon_handler, deny) (inl refl)
  ]
  | inr (inl e) ↦ rw (e, su_daemon_handler) (inl refl)
  | inr (inr e) ↦ rw (e, su_daemon_handler) tt
]

dispatch-Allowed :
    (env : Environment) (dev : Device) (peer : Peer) (code : RequestCode) (input : Bytes)
    (d : Daemon)
    → Leaves (λ done. Allowed env peer done.actions) (dispatch env dev peer code input d)
unfolding dispatch handle_request_sync handle_request_async db_exec_for_cli Leaves served repr
    Allowed shells
dispatch-Allowed env dev peer start_daemon input d = inl refl
dispatch-Allowed env dev peer check_version input d = inl refl
dispatch-Allowed env dev peer check_version_code input d = inl refl
dispatch-Allowed env dev peer stop_daemon input d = inl refl
dispatch-Allowed env dev peer superuser input d = su_daemon_handler-Allowed env dev peer input d
dispatch-Allowed env dev peer zygote_restart input d = elim (Bool-cases d.zygisk_enabled) [
  | inl on ↦ inl (rw (on) refl)
  | inr off ↦ inl (rw (off) refl)
]
dispatch-Allowed env dev peer denylist input d = inl refl
dispatch-Allowed env dev peer sqlite_cmd input d = elim (Outcome-cases (decode_string input)) [
  | inl ((sql, rest), e) ↦ rw (e, db_exec_for_cli) (inl refl)
  | inr (inl e) ↦ rw (e, db_exec_for_cli) (inl refl)
  | inr (inr e) ↦ rw (e, db_exec_for_cli) tt
]
dispatch-Allowed env dev peer remove_modules input d = elim (Outcome-cases (decode_bool input)) [
  | inl ((again, rest), e) ↦ elim (Bool-cases again) [
    | inl on ↦ rw (e, handle_request_async, on) (inl refl)
    | inr off ↦ rw (e, handle_request_async, off) (inl refl)
  ]
  | inr (inl e) ↦ rw (e, handle_request_async) (inl refl)
  | inr (inr e) ↦ rw (e, handle_request_async) tt
]
dispatch-Allowed env dev peer zygisk input d = inl refl
dispatch-Allowed env dev peer (stage code) input d = inl refl

-- A request that is served to its end and starts a root shell comes from root or from a uid that the denylist does not cover.
pub serve-shells :
    (env : Environment) (dev : Device) (peer : Peer) (input : Bytes) (d : Daemon) (done : Served)
    → serve env dev peer input d ≡ ok done
    → shells done.actions ≢ 0
    → (peer.uid ≡ 0) ⊎ (env.is_deny_target_uid peer.uid ≡ false)
serve-shells env dev peer input d done h some_shell =
    let allowed : Allowed env peer done.actions =
      Leaves-ok (λ done. Allowed env peer done.actions) (serve env dev peer input d) done
        (serve-Leaves (λ e actions. Allowed env peer actions) env dev peer input d
          (unfold Allowed shells in inl refl)
          (λ code rest _. dispatch-Allowed env dev peer code rest d))
        h in
    let split : (shells done.actions ≡ 0) ⊎ (root_allowed env peer.uid ≡ true) =
      unfold Allowed in allowed in
    elim split [
      | inl no_shell ↦ absurd (some_shell no_shell)
      | inr ok_uid ↦ elim (Bool-cases (peer.uid == 0)) [
        | inl root ↦ inl (ground (arith, root))
        | inr other ↦ inr (unfold root_allowed in ground (arith, ok_uid, other))
      ]
    ]
