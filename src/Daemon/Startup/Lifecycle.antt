-- ===== src/Daemon/Startup/Lifecycle.antt =====
-- What a daemon holds when it has started, failed to start, and closed.
use benchhand.Prelude.{
  ℕ, Bool, true, false, Option, none, some, Result, ok, err, ◌≡◌, refl, ◌⊎◌, inl, inr, arith,
}
use benchhand.Contracts.Schema.{Thrown}
use benchhand.Daemon.Startup.{
  Platform, win32, StartFailure, is_unix_socket_active, EndpointEntry, free, not_a_socket, socket,
  Machine, probed, inspected, measured_endpoint, endpoint_on, prepare_ipc_endpoint, Resources,
  nothing_held, StartDaemonOptions, bring_up, brought_up, database_opened, endpoint_prepared,
  options_checked, start_daemon, server_closed, close,
}

module _ (machine : Machine) where
  -- The path keeps what stands there, unless that is a socket that nobody answers on.
  abbrev pub Spared : EndpointEntry → EndpointEntry → Type 0
  Spared before after =
      (after ≡ before)
      ⊎ ((in_use : Bool) × (before ≡ socket in_use)
          × (is_unix_socket_active (machine.probe in_use) ≡ ok false))

  -- The platform has no sockets in files, or the path is free, or holds a socket of which the probe
  -- answers that nobody is behind it.
  abbrev pub Usable : Platform → EndpointEntry → Type 0
  Usable platform before =
      (platform ≡ win32)
      ⊎ ((before ≡ free)
          ⊎ ((in_use : Bool) × (before ≡ socket in_use)
              × (is_unix_socket_active (machine.probe in_use) ≡ ok false)))

  -- What a preparation of the path leaves there: on success the path was usable.
  abbrev Prepared :
      Platform → EndpointEntry → Result StartFailure (Unit {0}) × EndpointEntry → Type 0
  Prepared platform before (outcome, after) =
      Spared before after × (outcome ≡ ok tt → Usable platform before)

  probed-Prepared :
      (platform : Platform) (in_use : Bool) (answer : Result StartFailure Bool)
      → is_unix_socket_active (machine.probe in_use) ≡ answer
      → Prepared platform (socket in_use) (probed machine (socket in_use) answer)
  unfolding probed
  probed-Prepared platform in_use (err e) answers = (inl refl, λ h. absurd cc)
  probed-Prepared platform in_use (ok true) answers = (inl refl, λ h. absurd cc)
  probed-Prepared platform in_use (ok false) answers =
      (inr (in_use, refl, answers), λ h. inr (inr (in_use, refl, answers)))

  inspected-Prepared :
      (platform : Platform) (fault : Option Thrown) (entry : EndpointEntry)
      → Prepared platform entry (inspected machine fault entry)
  unfolding inspected
  inspected-Prepared platform (some e) entry = (inl refl, λ h. absurd cc)
  inspected-Prepared platform none free = (inl refl, λ h. inr (inl refl))
  inspected-Prepared platform none not_a_socket = (inl refl, λ h. absurd cc)
  inspected-Prepared platform none (socket in_use) = probed-Prepared platform in_use _ refl

  measured-Prepared :
      (platform : Platform) (too_long : Bool) (entry : EndpointEntry)
      → Prepared platform entry (measured_endpoint machine too_long entry)
  unfolding measured_endpoint
  measured-Prepared platform true entry = (inl refl, λ h. absurd cc)
  measured-Prepared platform false entry = inspected-Prepared platform machine.lstat_fault entry

  endpoint_on-Prepared :
      (platform : Platform) (path_bytes : ℕ) (entry : EndpointEntry)
      → Prepared platform entry (endpoint_on machine platform path_bytes entry)
  unfolding endpoint_on
  endpoint_on-Prepared win32 path_bytes entry = (inl refl, λ h. inl refl)
  endpoint_on-Prepared platform path_bytes entry = measured-Prepared platform _ entry

  -- Everything is held, with a socket of the daemon's own where the path was usable, or nothing is.
  abbrev pub AllOrNothing :
      (before : EndpointEntry) → Result StartFailure (Unit {0}) × Resources → Type 0
  AllOrNothing before (outcome, r) =
      ((outcome ≡ ok tt)
        × (r.database_open ≡ true)
        × (r.listening ≡ true)
        × (r.ready ≡ true)
        × (bring_up machine ≡ ok tt)
        × (r.endpoint ≡ socket true)
        × Usable machine.platform before)
      ⊎ ((e : StartFailure) × (outcome ≡ err e)
          × (r.database_open ≡ false)
          × (r.listening ≡ false)
          × (r.ready ≡ false)
          × Spared before r.endpoint)

  brought_up-AllOrNothing :
      (up : Result StartFailure (Unit {0})) (before entry : EndpointEntry)
      → bring_up machine ≡ up
      → Spared before entry
      → Usable machine.platform before
      → AllOrNothing before
          (brought_up machine up (record (nothing_held entry) { database_open = true }))
  unfolding brought_up
  brought_up-AllOrNothing (ok tt) before entry e spared usable =
      inl (refl, refl, refl, refl, e, refl, usable)
  brought_up-AllOrNothing (err f) before entry e spared usable =
      inr (f, refl, refl, refl, refl, spared)

  database_opened-AllOrNothing :
      (opens : Result Thrown (Unit {0})) (before entry : EndpointEntry)
      → Spared before entry
      → Usable machine.platform before
      → AllOrNothing before (database_opened machine opens (nothing_held entry))
  unfolding database_opened
  database_opened-AllOrNothing (err e) before entry spared usable =
      inr (_, refl, refl, refl, refl, spared)
  database_opened-AllOrNothing (ok _) before entry spared usable =
      brought_up-AllOrNothing _ before entry refl spared usable

  endpoint_prepared-AllOrNothing :
      (prepared : Result StartFailure (Unit {0})) (before entry : EndpointEntry)
      → Prepared machine.platform before (prepared, entry)
      → AllOrNothing before (endpoint_prepared machine (prepared, entry))
  unfolding endpoint_prepared
  endpoint_prepared-AllOrNothing (err e) before entry (spared, usable) =
      inr (e, refl, refl, refl, refl, spared)
  endpoint_prepared-AllOrNothing (ok tt) before entry (spared, usable) =
      database_opened-AllOrNothing _ before entry spared (usable refl)

  options_checked-AllOrNothing :
      (checked : Result StartFailure (Unit {0})) (path_bytes : ℕ) (entry : EndpointEntry)
      → AllOrNothing entry (options_checked machine checked path_bytes entry)
  unfolding options_checked prepare_ipc_endpoint
  options_checked-AllOrNothing (err e) path_bytes entry = inr (e, refl, refl, refl, refl, inl refl)
  options_checked-AllOrNothing (ok _) path_bytes entry =
      let (outcome, after) = endpoint_on machine machine.platform path_bytes entry in
      endpoint_prepared-AllOrNothing outcome entry after
        (endpoint_on-Prepared machine.platform path_bytes entry)

  -- A daemon that starts has its database open, listens on a socket at its path and is ready, and its
  -- startup checks passed; then the platform has no sockets in files, or the path was free or held a
  -- socket of which the probe answers that nobody is behind it. One that fails to start holds
  -- nothing, and leaves the entry at the path as it was, unless it is such a socket.
  pub start_daemon-AllOrNothing :
      (options : StartDaemonOptions) (entry : EndpointEntry)
      → AllOrNothing entry (start_daemon machine options entry)
  unfolding start_daemon
  start_daemon-AllOrNothing options entry = options_checked-AllOrNothing _ _ entry

  -- Closing is idempotent: a second close returns at once and leaves all as the first left it,
  -- which was no longer ready.
  pub close_again :
      (r : Resources)
      → r.closed ≡ false
      → (close machine (close machine r).1 ≡ (ok tt, (close machine r).1))
        × ((close machine r).1.ready ≡ false)
  unfolding close server_closed
  close_again r running = ground arith
