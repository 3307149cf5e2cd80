-- ===== src/Core/Requests/Permission.antt =====
-- What each client of native/src/core/daemon.rs can reach.
use magisk_t.Prelude.{
  ◌≡◌, refl, sym, ap, subst, ◌∙◌, ◌≢◌, ◌⊎◌, inl, inr, Bool, true, false, not, ◌&&◌, Option, none,
  some, List, [], ◌++◌, arith, ◌==◌, if◌then◌else◌, Bool-cases, Option-cases, Bytes, All, Outcome,
  ok, err, panic,
}
use magisk_t.Core.Socket.{read_pod, decode_bool}
use magisk_t.Core.Stages.{Daemon, Device}
use magisk_t.Core.Requests.{
  Peer, RequestCode, start_daemon, check_version, check_version_code, stop_daemon, superuser,
  zygote_restart, denylist, sqlite_cmd, remove_modules, zygisk, stage, repr, request_code,
  is_zygote, refused, grant, handle_requests, Action, setup_logfile, exec_root_shell,
  remove_all_modules, reboot, zygisk_handler, Served, served, Environment, root_allowed,
  su_daemon_handler, handle_request_sync, handle_request_async, dispatch, serve, decode_su_request,
}

-- What a request that is handled leaves has `P`; one that fails leaves nothing.
unfoldable pub Leaves : (Served → Type 0) → Outcome Served → Type 0
Leaves P (ok done) = P done
Leaves P err = Unit
Leaves P panic = Unit

pub Leaves-ok :
    (P : Served → Type 0) (out : Outcome Served) (done : Served)
    → Leaves P out
    → out ≡ ok done
    → P done
unfolding Leaves
Leaves-ok P out done p h = subst (Leaves P) h p

Started : Peer → Option (RequestCode × Bytes) → Type 0
Started peer none = Unit
Started peer (some (code, rest)) = refused peer code ≡ none

-- A task is only started for a client whom the checks do not refuse.
grant-Started :
    (peer : Peer) (code : RequestCode) (rest : Bytes) → Started peer (grant peer code rest).1
unfolding Started grant
grant-Started peer code rest = elim (Option-cases (refused peer code)) [
  | inl allowed ↦ elim (Bool-cases peer.writable) [
    | inl writes ↦ rw (allowed, grant) (simp (writes) allowed)
    | inr closed ↦ rw (allowed, grant) (simp (closed) tt)
  ]
  | inr (refusal, e) ↦ rw (e, grant) tt
]

pub Outcome-cases :
    {A : Type 0} (o : Outcome A) → ((a : A) × (o ≡ ok a)) ⊎ ((o ≡ err) ⊎ (o ≡ panic))
Outcome-cases (ok a) = inl (a, refl)
Outcome-cases err = inr (inl refl)
Outcome-cases panic = inr (inr refl)

handle_requests-Started :
    (peer : Peer) (input : Bytes) → Started peer (handle_requests peer input).1
unfolding handle_requests Started
handle_requests-Started peer input =
    elim (Bool-cases (not (peer.uid == 0) && not (is_zygote peer) && not peer.is_client)) [
      | inl out ↦ rw (out) tt
      | inr known ↦ elim (Outcome-cases (read_pod 4 input)) [
        | inl ((number, rest), e) ↦ elim (Option-cases (request_code number)) [
          | inl unknown ↦ rw (known, e, unknown) tt
          | inr (code, is) ↦ rw (known, e, is) (grant-Started peer code rest)
        ]
        | inr (inl e) ↦ rw (known, e) tt
        | inr (inr e) ↦ rw (known, e) tt
      ]
    ]

pub su_daemon_handler-daemon :
    (env : Environment) (dev : Device) (peer : Peer) (input : Bytes) (d : Daemon)
    → Leaves (λ done. done.daemon ≡ d) (su_daemon_handler env dev peer input d)
unfolding su_daemon_handler Leaves served
su_daemon_handler-daemon env dev peer input d = elim (Outcome-cases (decode_su_request input)) [
  | inl ((req, rest), e) ↦ elim (Bool-cases (root_allowed env peer.uid)) [
    | inl allowed ↦ elim (Option-cases env.child_status) [
      | inl failed ↦ rw (e, su_daemon_handler, allowed, failed) refl
      | inr (status, is) ↦ rw (e, su_daemon_handler, allowed, is) refl
    ]
    | inr deny ↦ rw (e, su_daemon_handler, deny) refl
  ]
  | inr (inl e) ↦ rw (e, su_daemon_handler) refl
  | inr (inr e) ↦ rw (e, su_daemon_handler) tt
]

pub remove_modules-daemon :
    (env : Environment) (dev : Device) (peer : Peer) (input : Bytes) (d : Daemon)
    → Leaves (λ done. done.daemon ≡ d) (handle_request_async env dev peer remove_modules input d)
unfolding handle_request_async Leaves served
remove_modules-daemon env dev peer input d = elim (Outcome-cases (decode_bool input)) [
  | inl ((reboot_too, rest), e) ↦ rw (e, handle_request_async) refl
  | inr (inl e) ↦ rw (e, handle_request_async) refl
  | inr (inr e) ↦ rw (e, handle_request_async) tt
]

-- What a client that is not root can make the daemon do.
unfoldable pub permitted : Peer → Action → Bool
permitted peer setup_logfile = true
permitted peer (exec_root_shell req ns) = true
permitted peer remove_all_modules = peer.uid == 2000
permitted peer reboot = peer.uid == 2000
permitted peer (zygisk_handler input) = is_zygote peer
permitted peer _ = false

-- The daemon is as it was, and only does what it may for the client.
abbrev pub Limited : Peer → Daemon → Daemon → List Action → Type 0
Limited peer d e actions = (e ≡ d) × All (λ action. permitted peer action ≡ true) actions

su_daemon_handler-Limited :
    (env : Environment) (dev : Device) (peer : Peer) (input : Bytes) (d : Daemon)
    → Leaves
        (λ done. Limited peer d done.daemon done.actions)
        (su_daemon_handler env dev peer input d)
unfolding su_daemon_handler Leaves served permitted
su_daemon_handler-Limited env dev peer input d = elim (Outcome-cases (decode_su_request input)) [
  | inl ((req, rest), e) ↦ elim (Bool-cases (root_allowed env peer.uid)) [
    | inl allowed ↦ elim (Option-cases env.child_status) [
      | inl failed ↦ rw (e, su_daemon_handler, allowed, failed) (refl, tt)
      | inr (status, is) ↦ rw (e, su_daemon_handler, allowed, is) (refl, (refl, tt))
    ]
    | inr deny ↦ rw (e, su_daemon_handler, deny) (refl, tt)
  ]
  | inr (inl e) ↦ rw (e, su_daemon_handler) (refl, tt)
  | inr (inr e) ↦ rw (e, su_daemon_handler) tt
]

remove_modules-Limited :
    (env : Environment) (dev : Device) (peer : Peer) (input : Bytes) (d : Daemon)
    → (peer.uid == 2000) ≡ true
    → Leaves
        (λ done. Limited peer d done.daemon done.actions)
        (handle_request_async env dev peer remove_modules input d)
unfolding handle_request_async Leaves served permitted
remove_modules-Limited env dev peer input d shell = elim (Outcome-cases (decode_bool input)) [
  | inl ((again, rest), e) ↦ elim (Bool-cases again) [
    | inl on ↦ rw (e, handle_request_async, on) (refl, (shell, (shell, tt)))
    | inr off ↦ rw (e, handle_request_async, off) (refl, (shell, tt))
  ]
  | inr (inl e) ↦ rw (e, handle_request_async) (refl, (shell, tt))
  | inr (inr e) ↦ rw (e, handle_request_async) tt
]

dispatch-Limited :
    (env : Environment) (dev : Device) (peer : Peer) (code : RequestCode) (input : Bytes)
    (d : Daemon)
    → (peer.uid == 0) ≡ false
    → refused peer code ≡ none
    → Leaves (λ done. Limited peer d done.daemon done.actions) (dispatch env dev peer code input d)
unfolding dispatch handle_request_sync handle_request_async Leaves served refused repr permitted
dispatch-Limited env dev peer start_daemon input d other h = (refl, (refl, tt))
dispatch-Limited env dev peer check_version input d other h = (refl, tt)
dispatch-Limited env dev peer check_version_code input d other h = (refl, tt)
dispatch-Limited env dev peer stop_daemon input d other h = absurd (ground (arith, other, h))
dispatch-Limited env dev peer superuser input d other h =
    su_daemon_handler-Limited env dev peer input d
dispatch-Limited env dev peer zygote_restart input d other h = absurd (ground (arith, other, h))
dispatch-Limited env dev peer denylist input d other h = absurd (ground (arith, other, h))
dispatch-Limited env dev peer sqlite_cmd input d other h = absurd (ground (arith, other, h))
dispatch-Limited env dev peer remove_modules input d other h =
    remove_modules-Limited env dev peer input d (ground (arith, other, h))
dispatch-Limited env dev peer zygisk input d other h = elim (Bool-cases (is_zygote peer)) [
  | inl zygote ↦ (refl, (zygote, tt))
  | inr foreign ↦ absurd (cc (ap (λ b. if b then none else some 2) (sym foreign) ∙ h))
]
dispatch-Limited env dev peer (stage code) input d other h = absurd (ground (arith, other, h))

-- What the handler leaves is what the request leaves, whatever `P` says but of the answer.
pub serve-Leaves :
    (P : Daemon → List Action → Type 0) (env : Environment) (dev : Device) (peer : Peer)
    (input : Bytes) (d : Daemon)
    → P d []
    → ((code : RequestCode) (rest : Bytes)
        → refused peer code ≡ none
        → Leaves (λ done. P done.daemon done.actions) (dispatch env dev peer code rest d))
    → Leaves (λ done. P done.daemon done.actions) (serve env dev peer input d)
unfolding serve Started Leaves served
serve-Leaves P env dev peer input d p handled =
    go (handle_requests peer input) (handle_requests-Started peer input)
  where
    task :
        (answer : Bytes) (out : Outcome Served)
        → Leaves (λ done. P done.daemon done.actions) out
        → Leaves
            (λ done. P done.daemon done.actions)
            (elim out [
              | ok done ↦ served (answer ++ done.answer) done.daemon done.actions
              | err ↦ err
              | panic ↦ panic
            ])
    task answer (ok done) left = left
    task answer err left = tt
    task answer panic left = tt

    go :
        (found : Bytes × Option (RequestCode × Bytes))
        → Started peer found.1
        → Leaves
            (λ done. P done.daemon done.actions)
            (elim found.1 [
              | none ↦ served found.0 d []
              | some (code, rest) ↦ elim (dispatch env dev peer code rest d) [
                | ok done ↦ served (found.0 ++ done.answer) done.daemon done.actions
                | err ↦ err
                | panic ↦ panic
              ]
            ])
    go (answer, none) s = p
    go (answer, some (code, rest)) s =
        task answer (dispatch env dev peer code rest d) (handled code rest s)

-- A request of a client that is not root, when it is served to its end, leaves the daemon as it was,
-- its database included, whatever the client sends. All that it can make the daemon do is to set up
-- the log and to start a shell; as uid 2000 also to remove the modules and to reboot, and with the
-- context of zygote to run the handler of Zygisk.
pub serve-not_root :
    (env : Environment) (dev : Device) (peer : Peer) (input : Bytes) (d : Daemon) (done : Served)
    → peer.uid ≢ 0
    → serve env dev peer input d ≡ ok done
    → Limited peer d done.daemon done.actions
serve-not_root env dev peer input d done other h =
    let no : (peer.uid == 0) ≡ false = ground (arith, other) in
    Leaves-ok (λ done. Limited peer d done.daemon done.actions) (serve env dev peer input d) done
      (serve-Leaves (Limited peer d) env dev peer input d (refl, tt)
        (λ code rest allowed. dispatch-Limited env dev peer code rest d no allowed))
      h
