-- ===== src/Service/Commands.antt =====
-- The handling of the service's commands, and its loop (plugins/service.c).
use nsb.Base.{
  ℕ, zero, suc, Bool, true, List, [], Option, none, some, ◌⊎◌, inl, inr, ltb, ◌==◌, ◌||◌, ◌&&◌, not,
  if◌then◌else◌,
}
use nsb.Base.Int.{ℤ, pos, negsuc, is_neg, is_zero, eq_ℤ, einval, enoent}
use nsb.Service.{MmapRequest, MunmapRequest, Kernel, nsb_service_cmd_mmap, nsb_service_cmd_munmap}
use nsb.Service.Libraries.{LinkMap, nsb_service_cmd_needed_list}

-- `struct nsb_service_request` as it is received: the command, the size of the data, and the data as
-- the handlers read it.
pub record Received : Type 0 where
  pub cmd : ℕ
  pub data_size : ℕ
  pub mmap_rq : MmapRequest
  pub munmap_rq : MunmapRequest
  pub frame : List ℕ

-- `struct nsb_service_response` without messages: the result, and the addresses.
pub record Reply : Type 0 where
  pub ret : ℤ
  pub addresses : List ℕ

-- What the service has of the kernel besides mapping, and its dynamic linker's list. A call that fails
-- has some errno, n + 1. `frame_size` is the size of `struct rt_sigframe`.
pub record Sockets (k : Kernel) : Type 0 where
  pub recv : k.World → (sock : Option ℕ) → (wait : Bool) → (ℕ ⊎ (ℕ × Received)) × k.World
  pub send : k.World → (sock : Option ℕ) → Reply → (ℕ ⊎ ℕ) × k.World
  pub accept : k.World → (listen_sock : ℕ) → (ℕ ⊎ ℕ) × k.World
  pub recv_fd : k.World → (sock : ℕ) → ℤ × k.World
  pub socket : k.World → (ℕ ⊎ ℕ) × k.World
  pub bind : k.World → (sock pid : ℕ) → Option ℕ × k.World
  pub listen : k.World → (sock backlog : ℕ) → Option ℕ × k.World
  pub r_map : k.World → List LinkMap
  pub frame_size : ℕ

-- The static variables of the service.
pub record Statics : Type 0 where
  pub listen_sock : ℕ
  pub cmd_sock : Option ℕ
  pub nsb_service_stop : Bool
  pub emergency_sigframe : List ℕ

-- How a function of the service ends: with its result, or by leaving to the frame that was saved.
pub data Left : Type 0 where
  returned : ℤ → Left
  to_frame : List ℕ → Left

-- The commands; those from `cmd_max` on are not in the table.
abbrev pub cmd_max : ℕ
cmd_max = 5

module _ (k : Kernel) (s : Sockets k) where
  -- The state of the service, with the world it is in.
  abbrev pub State : Type 0
  State = Statics × k.World

  unfoldable pub nsb_service_cmd_emerg_sigframe : Received → State → ℤ × State
  nsb_service_cmd_emerg_sigframe rq (v, w) =
      if not (rq.data_size == s.frame_size)
      then (einval, (v, w))
      else (pos 0, (record v { emergency_sigframe = rq.frame }, w))

  unfoldable pub nsb_service_cmd_stop : State → ℤ × State
  nsb_service_cmd_stop (v, w) = (pos 0, (record v { nsb_service_stop = true }, w))

  abbrev pub reply : ℤ × k.World → Statics → Reply × State
  reply (err, w) v = (record { ret = err; addresses = [] }, (v, w))

  abbrev pub reply_with : ℤ × State → Reply × State
  reply_with (err, st) = (record { ret = err; addresses = [] }, st)

  abbrev pub needed_reply : Option (ℤ ⊎ List ℕ) → State → Option (Reply × State)
  needed_reply none st = none
  needed_reply (some (inl err)) st = some (record { ret = err; addresses = [] }, st)
  needed_reply (some (inr all_)) st = some (record { ret = pos 0; addresses = all_ }, st)

  -- The handler of each command. What stands behind the table is none: it is called for `cmd_max`.
  unfoldable pub nsb_do_handle_cmd : Received → State → Option (Reply × State)
  nsb_do_handle_cmd rq (v, w) =
      if ltb cmd_max rq.cmd
      then some (record { ret = einval; addresses = [] }, (v, w))
      else if rq.cmd == 0
      then some (reply_with (nsb_service_cmd_emerg_sigframe rq (v, w)))
      else if rq.cmd == 1
      then some (reply_with (nsb_service_cmd_stop (v, w)))
      else if rq.cmd == 2
      then needed_reply (nsb_service_cmd_needed_list (s.r_map w)) (v, w)
      else if rq.cmd == 3
      then some (reply (nsb_service_cmd_mmap k rq.mmap_rq w) v)
      else if rq.cmd == 4
      then some (reply (nsb_service_cmd_munmap k rq.munmap_rq w) v)
      else none

  -- The socket is closed, and the control goes to the frame.
  unfoldable pub emergency_sigreturn : State → Left × State
  emergency_sigreturn (v, w) = elim v.cmd_sock [
    | none ↦ (Left.to_frame v.emergency_sigframe, (v, w))
    | some sock ↦
        (Left.to_frame v.emergency_sigframe, (record v { cmd_sock = none }, k.close w sock))
  ]

  unfoldable pub nsb_service_send_response : Reply → State → ℤ × State
  nsb_service_send_response r (v, w) =
      let (sent, w') = s.send w v.cmd_sock r in
      (elim sent [ inl n ↦ negsuc n | inr size ↦ pos size ], (v, w'))

  abbrev pub answered : Option (Reply × State) → Option (Left × State)
  answered none = none
  answered (some (r, st)) =
      let (size, st') = nsb_service_send_response r st in
      some (
        if is_neg size
        then (Left.returned size, st')
        else if is_zero size
        then emergency_sigreturn st'
        else (Left.returned (pos 0), st'))

  unfoldable pub nsb_handle_command : Received → State → Option (Left × State)
  nsb_handle_command rq st = answered (nsb_do_handle_cmd rq st)

  -- An error, or the size with the request; a size of 0 is the end of the connection.
  unfoldable pub nsb_service_receive_request : (wait : Bool) → State → (ℤ ⊎ (ℕ × Received)) × State
  nsb_service_receive_request wait (v, w) =
      let (received, w') = s.recv w v.cmd_sock wait in
      (
        elim received [
          | inl n ↦ inl (negsuc n)
          | inr (size, rq) ↦ (if not (size == 0) && ltb size 4 then inl einval else inr (size, rq))
        ],
        (v, w'),
      )

  abbrev pub handled : (ℤ ⊎ (ℕ × Received)) × State → Option (Left × State)
  handled (inl err, st) = some (Left.returned (if eq_ℤ err (negsuc 10) then pos 0 else err), st)
  handled (inr (size, rq), st) =
      let rest = nsb_handle_command rq st in
      if size == 0 then some (emergency_sigreturn st) else rest

  -- `EAGAIN` and `EWOULDBLOCK` are both 11.
  unfoldable pub nsb_service_run : (wait : Bool) → State → Option (Left × State)
  nsb_service_run wait st = handled (nsb_service_receive_request wait st)

  -- What follows a round of the loop.
  abbrev pub or_again :
      (once : Bool)
      → (State → Option (Left × State))
      → Option (Left × State)
      → Option (Left × State)
  or_again once next none = none
  or_again once next (some (Left.to_frame frame, st)) = some (Left.to_frame frame, st)
  or_again once next (some (Left.returned ret, (v, w))) =
      if v.nsb_service_stop || once then some (Left.returned ret, (v, w)) else next (v, w)

  -- The rounds are on fuel: nothing need stop them.
  unfoldable pub nsb_service_run_loop :
      (fuel : ℕ) (once wait : Bool) → State → Option (Left × State)
  nsb_service_run_loop zero once wait st = none
  nsb_service_run_loop (suc fuel) once wait st =
      or_again once (nsb_service_run_loop fuel once wait) (nsb_service_run wait st)

  unfoldable pub nsb_service_accept : State → ℤ × State
  nsb_service_accept (v, w) =
      let closed : k.World = elim v.cmd_sock [ none ↦ w | some sock ↦ k.close w sock ] in
      let (accepted, w') = s.accept closed v.listen_sock in
      elim accepted [
        | inl n ↦ (pos (suc n), (record v { cmd_sock = none }, w'))
        | inr sock ↦ (pos 0, (record v { cmd_sock = some sock }, w'))
      ]

  unfoldable pub nsb_service_receive_fd : State → ℤ × State
  nsb_service_receive_fd (v, w) = elim v.cmd_sock [
    | none ↦ (enoent, (v, w))
    | some sock ↦ (let (fd, w') = s.recv_fd w sock in (fd, (v, w')))
  ]

  unfoldable pub nsb_service_destructor : State → ℤ × State
  nsb_service_destructor (v, w) =
      let closed : k.World = elim v.cmd_sock [ none ↦ w | some sock ↦ k.close w sock ] in
      (pos 0, (v, k.close closed v.listen_sock))

  abbrev pub listening : (sock : ℕ) → Option ℕ × k.World → Statics → ℤ × State
  listening sock (none, w) v = (pos 0, (record v { listen_sock = sock }, w))
  listening sock (some n, w) v = (pos (suc n), (record v { listen_sock = sock }, k.close w sock))

  abbrev pub bound : (sock : ℕ) → Option ℕ × k.World → Statics → ℤ × State
  bound sock (none, w) v = listening sock (s.listen w sock 1) v
  bound sock (some n, w) v = (pos (suc n), (record v { listen_sock = sock }, k.close w sock))

  -- The name of the socket has room for every pid. The errors are positive.
  unfoldable pub nsb_service_constructor : (pid : ℕ) → State → ℤ × State
  nsb_service_constructor pid (v, w) =
      let (made, w1) = s.socket w in
      elim made [ inl n ↦ (pos (suc n), (v, w1)) | inr sock ↦ bound sock (s.bind w1 sock pid) v ]
