-- ===== src/Port/Target.antt =====
-- Which port a message goes to: the checks of `port_send` of kernel/port.c.
use jeffos.Base.{
  ℕ, ◌<◌, ◌≤◌, ◌≡◌, ◌≢◌, ◌⊎◌, refl, true, false, inl, inr, Bool, not, ◌&&◌, arith, ◌==◌, ltb,
  if◌then◌else◌, Bool-cases, ==_iff, ==_refl,
}
use jeffos.Kernel.{
  Kernel, err_none, err_permission, err_resource, err_memory, err_sendport, err_recvport,
}
use jeffos.Port.{MsgHdr, find_port, barred, send_target}

-- The sender holds its port, or a task of the same process does.
abbrev pub IsOurs : Kernel → ℕ → Type 0
IsOurs k f =
    ((k.port f).owner ≡ k.machine.current_task)
    ⊎ ((k.machine.task (k.port f).owner).parent ≡ (k.machine.task k.machine.current_task).parent)

-- The port takes messages from anywhere, or from this source.
abbrev pub IsOpen : Kernel → ℕ → MsgHdr → Type 0
IsOpen k p h = ((k.port p).restrict ≡ 0) ⊎ ((k.port p).restrict ≡ h.src)

-- The message goes to `p`: the port that is named, or the master of a slave.
pub data Reaches (k : Kernel) (h : MsgHdr) (p : ℕ) : Type 0 where
  direct : find_port k h.dst ≡ p → (k.port p).slaved ≡ 0 → Reaches k h p
  through :
      (slave : ℕ)
      → find_port k h.dst ≡ slave
      → slave ≢ 0
      → IsOpen k slave h
      → (k.port slave).slaved ≢ 0
      → find_port k (k.port slave).slaved ≡ p
      → (k.port p).slaved ≡ 0
      → Reaches k h p

pub record Accepts (k : Kernel) (mh : ℕ) (h : MsgHdr) (p : ℕ) : Type 0 where
  pub header_low : mh ≤ 0x400000
  pub source : find_port k h.src ≢ 0
  pub ours : IsOurs k (find_port k h.src)
  pub reaches : Reaches k h p
  pub some_port : p ≢ 0
  pub open_to : IsOpen k p h

pub record IsSendable (h : MsgHdr) : Type 0 where
  pub some_bytes : 1 ≤ h.size
  pub few_bytes : h.size ≤ 4096
  pub body_low : h.body ≤ 0x400000

-- The condition that fails, with the code that `port_send` refuses with.
pub data Refusal (k : Kernel) (mh : ℕ) (h : MsgHdr) : ℕ → Type 0 where
  high_header : 0x400000 < mh → Refusal k mh h err_memory
  no_source : find_port k h.src ≡ 0 → Refusal k mh h err_sendport
  foreign : (IsOurs k (find_port k h.src) → ⊥) → Refusal k mh h err_permission
  no_port : find_port k h.dst ≡ 0 → Refusal k mh h err_recvport
  closed :
      find_port k h.dst ≢ 0 → (IsOpen k (find_port k h.dst) h → ⊥) → Refusal k mh h err_permission
  no_master :
      (k.port (find_port k h.dst)).slaved ≢ 0
      → find_port k (k.port (find_port k h.dst)).slaved ≡ 0
      → Refusal k mh h err_resource
  slaved_master :
      (k.port (find_port k h.dst)).slaved ≢ 0
      → (k.port (find_port k (k.port (find_port k h.dst)).slaved)).slaved ≢ 0
      → Refusal k mh h err_resource
  closed_master :
      (k.port (find_port k h.dst)).slaved ≢ 0
      → (IsOpen k (find_port k (k.port (find_port k h.dst)).slaved) h → ⊥)
      → Refusal k mh h err_permission
  unsendable : (IsSendable h → ⊥) → Refusal k mh h err_memory

pub data TargetEnd (k : Kernel) (mh : ℕ) (h : MsgHdr) : ℕ × ℕ → Type 0 where
  goes : (p : ℕ) → Accepts k mh h p → TargetEnd k mh h (p, err_none)
  stays : (e : ℕ) → Refusal k mh h e → TargetEnd k mh h (0, e)

barred-IsOpen : (k : Kernel) (p : ℕ) (h : MsgHdr) → barred k p h ≡ false → IsOpen k p h
barred-IsOpen k p h e = elim (Bool-cases ((k.port p).restrict == 0)) [
  | inl z ↦ inl ((==_iff _ _).0 z)
  | inr z ↦ elim (Bool-cases ((k.port p).restrict == h.src)) [
    | inl s ↦ inr ((==_iff _ _).0 s)
    | inr s ↦ absurd (ground (arith, e))
  ]
]

barred-closed : (k : Kernel) (p : ℕ) (h : MsgHdr) → barred k p h ≡ true → IsOpen k p h → ⊥
barred-closed k p h e (inl z) = ground (arith, e, z)
barred-closed k p h e (inr z) = ground (arith, e, z)

no_null : (a : ℕ) → (a == 0) ≡ false → a ≢ 0
no_null a e z = ground arith

module _ (k : Kernel) (mh : ℕ) (h : MsgHdr) where
  stranger : Bool
  stranger =
      let f = find_port k h.src in
      not ((k.port f).owner == k.machine.current_task)
      && not (
          (k.machine.task (k.port f).owner).parent
          == (k.machine.task k.machine.current_task).parent)

  friend-IsOurs : stranger ≡ false → IsOurs k (find_port k h.src)
  unfolding stranger
  friend-IsOurs e =
      let f = find_port k h.src in
      elim (Bool-cases ((k.port f).owner == k.machine.current_task)) [
        | inl z ↦ inl ((==_iff _ _).0 z)
        | inr z ↦
            elim (Bool-cases (
              (k.machine.task (k.port f).owner).parent
              == (k.machine.task k.machine.current_task).parent)) [
                | inl s ↦ inr ((==_iff _ _).0 s)
                | inr s ↦ absurd (ground (arith, e))
              ]
      ]

  stranger-foreign : stranger ≡ true → IsOurs k (find_port k h.src) → ⊥
  unfolding stranger
  stranger-foreign e (inl z) = ground (arith, e, z)
  stranger-foreign e (inr z) = ground (arith, e, z)

  -- From the port that the message names on.
  route : ℕ × ℕ
  route =
      let p = find_port k h.dst in
      let master = find_port k (k.port p).slaved in
      if p == 0
      then (0, err_recvport)
      else if barred k p h
      then (0, err_permission)
      else if (k.port p).slaved == 0
      then (p, err_none)
      else if master == 0
      then (0, err_resource)
      else if not ((k.port master).slaved == 0)
      then (0, err_resource)
      else if barred k master h
      then (0, err_permission)
      else (master, err_none)

  route-TargetEnd :
      mh ≤ 0x400000 → find_port k h.src ≢ 0 → IsOurs k (find_port k h.src) → TargetEnd k mh h route
  unfolding route
  route-TargetEnd low source ours =
      let p = find_port k h.dst in
      let master = find_port k (k.port p).slaved in
      elim (Bool-cases (p == 0)) [
        | inl a ↦ rw a (TargetEnd.stays _ (Refusal.no_port ((==_iff _ _).0 a)))
        | inr a ↦ elim (Bool-cases (barred k p h)) [
          | inl b ↦
              rw (a, b) (TargetEnd.stays _ (Refusal.closed (no_null p a) (barred-closed k p h b)))
          | inr b ↦ elim (Bool-cases ((k.port p).slaved == 0)) [
            | inl c ↦
                rw (a, b, c)
                  (TargetEnd.goes p (record {
                    header_low = low;
                    source = source;
                    ours = ours;
                    reaches = Reaches.direct refl ((==_iff _ _).0 c);
                    some_port = no_null p a;
                    open_to = barred-IsOpen k p h b;
                  }))
            | inr c ↦ elim (Bool-cases (master == 0)) [
              | inl d ↦
                  rw (a, b, c, d)
                    (TargetEnd.stays _ (Refusal.no_master (no_null _ c) ((==_iff _ _).0 d)))
              | inr d ↦ elim (Bool-cases ((k.port master).slaved == 0)) [
                | inr e ↦
                    rw (a, b, c, d, e)
                      (TargetEnd.stays _ (Refusal.slaved_master (no_null _ c) (no_null _ e)))
                | inl e ↦ elim (Bool-cases (barred k master h)) [
                  | inl f ↦
                      rw (a, b, c, d, e, f)
                        (TargetEnd.stays _
                          (Refusal.closed_master (no_null _ c) (barred-closed k master h f)))
                  | inr f ↦
                      rw (a, b, c, d, e, f)
                        (TargetEnd.goes master (record {
                          header_low = low;
                          source = source;
                          ours = ours;
                          reaches =
                              Reaches.through p refl (no_null p a) (barred-IsOpen k p h b)
                                (no_null _ c) refl ((==_iff _ _).0 e);
                          some_port = no_null master d;
                          open_to = barred-IsOpen k master h f;
                        }))
                ]
              ]
            ]
          ]
        ]
      ]

  pub send_target-TargetEnd : TargetEnd k mh h (send_target k mh h)
  unfolding send_target route stranger
  send_target-TargetEnd = elim (Bool-cases (ltb 0x400000 mh)) [
    | inl a ↦ rw a (TargetEnd.stays _ (Refusal.high_header (ground arith)))
    | inr a ↦ elim (Bool-cases (find_port k h.src == 0)) [
      | inl b ↦ rw (a, b) (TargetEnd.stays _ (Refusal.no_source ((==_iff _ _).0 b)))
      | inr b ↦ elim (Bool-cases stranger) [
        | inl c ↦ rw (a, b, c) (TargetEnd.stays _ (Refusal.foreign (stranger-foreign c)))
        | inr c ↦ rw (a, b, c) (route-TargetEnd (ground arith) (no_null _ b) (friend-IsOurs c))
      ]
    ]
  ]

IsOpen-barred : (k : Kernel) (p : ℕ) (h : MsgHdr) → IsOpen k p h → barred k p h ≡ false
IsOpen-barred k p h (inl e) = ground (arith, e)
IsOpen-barred k p h (inr e) = rw (e, ==_refl h.src) (ground arith)

module _ (k : Kernel) (mh : ℕ) (h : MsgHdr) (p : ℕ) (may : Accepts k mh h p) where
  accepted-friend : IsOurs k (find_port k h.src) → stranger k mh h ≡ false
  unfolding stranger
  accepted-friend (inl e) = ground (arith, e)
  accepted-friend (inr e) = ground (arith, e)

  accepted-route : Reaches k h p → route k mh h ≡ (p, err_none)
  unfolding route
  accepted-route (Reaches.direct e free) =
      let some_port : (p == 0) ≡ false = ground (arith, may.some_port) in
      rw (e, some_port, IsOpen-barred k p h may.open_to, free) refl
  accepted-route (Reaches.through slave e there open_slave slaved m free) =
      let some_port : (p == 0) ≡ false = ground (arith, may.some_port) in
      let some_slave : (slave == 0) ≡ false = ground (arith, there) in
      let is_slave : ((k.port slave).slaved == 0) ≡ false = ground (arith, slaved) in
      rw
        (
          e,
          some_slave,
          IsOpen-barred k slave h open_slave,
          is_slave,
          m,
          some_port,
          free,
          IsOpen-barred k p h may.open_to,
        )
        refl

  pub accepted-target : send_target k mh h ≡ (p, err_none)
  unfolding send_target route stranger
  accepted-target =
      let low : ltb 0x400000 mh ≡ false = ground (arith, may.header_low) in
      let source : (find_port k h.src == 0) ≡ false = ground (arith, may.source) in
      rw (low, source, accepted-friend may.ours) (accepted-route may.reaches)
