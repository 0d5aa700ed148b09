-- ===== src/GeeRpc/Registry/Alive.antt =====
-- What one scan of the registry lists and what it leaves, for gee-rpc/day7-registry/registry's
-- aliveServers.
use days_golang_master.Base.{
  ℕ, ◌≡◌, refl, ◌⊎◌, inl, inr, Text, text_discrete, Option, none, some, List, [], ◌∷◌, ◌++◌, arith,
  Has, Has-append, Has-append_left, Has-append_right, true, false, ite, none-ne-some, if_neg,
  Bool-cases,
}
use days_golang_master.Base.Table
use days_golang_master.Base.Table.{Table, get-delete, get-put}
use days_golang_master.GeeRpc.Registry.{ServerItem, is_alive, scan}

-- What the map holds for an address once a part of it is scanned: `kept` is what it held.
abbrev pub swept : ℕ → ℕ → Option ServerItem → Option ServerItem → Option ServerItem
swept timeout now none kept = kept
swept timeout now (some s) kept = elim (is_alive timeout now s) [ true ↦ kept | false ↦ none ]

module _ (timeout now : ℕ) where
  module _ (addr : Text) (s : ServerItem) (m : Table Text ServerItem) (alive : List Text)
      (servers : Table Text ServerItem) where
    scan_alive :
        is_alive timeout now s ≡ true
        → scan timeout now ((addr, s) ∷ m) alive servers
          ≡ scan timeout now m (alive ++ addr ∷ []) servers
    unfolding scan
    scan_alive e = ground arith

    scan_dead :
        is_alive timeout now s ≡ false
        → scan timeout now ((addr, s) ∷ m) alive servers
          ≡ scan timeout now m alive (Table.delete text_discrete addr servers)
    unfolding scan
    scan_dead e = ground arith

  pub get-scan :
      (a : Text) (m : Table Text ServerItem) (alive : List Text) (servers : Table Text ServerItem)
      → Table.IsUnique text_discrete m
      → Table.get text_discrete a (scan timeout now m alive servers).1
        ≡ swept timeout now (Table.get text_discrete a m) (Table.get text_discrete a servers)
  unfolding scan Table.get
  get-scan a [] alive servers h = refl
  get-scan a ((addr, s) ∷ m) alive servers (n, h) = ground (
    arith,
    n,
    get-scan a m (alive ++ addr ∷ []) servers h,
    get-scan a m alive (Table.delete text_discrete addr servers) h,
    get-delete text_discrete a addr servers,
  )

  pub scan-IsUnique :
      (m : Table Text ServerItem) (alive : List Text) (servers : Table Text ServerItem)
      → Table.IsUnique text_discrete servers
      → Table.IsUnique text_discrete (scan timeout now m alive servers).1
  unfolding scan
  scan-IsUnique [] alive servers h = h
  scan-IsUnique ((addr, s) ∷ m) alive servers h = elim (Bool-cases (is_alive timeout now s)) [
    | inl e ↦
        rw (scan_alive addr s m alive servers e) (scan-IsUnique m (alive ++ addr ∷ []) servers h)
    | inr e ↦ rw (scan_dead addr s m alive servers e) (
        scan-IsUnique m alive (Table.delete text_discrete addr servers)
          (Table.delete-IsUnique text_discrete addr servers h))
  ]

  -- An address is listed if the scan found it alive, or if it was listed before.
  pub Has-scan :
      (a : Text) (m : Table Text ServerItem) (alive : List Text) (servers : Table Text ServerItem)
      → Has a alive
        ⊎ ((s : ServerItem) × (Table.get text_discrete a m ≡ some s)
            × (is_alive timeout now s ≡ true))
      → Has a (scan timeout now m alive servers).0
  unfolding scan Table.get
  Has-scan a [] alive servers (inl h) = h
  Has-scan a [] alive servers (inr (s, e, _)) = absurd (none-ne-some e)
  Has-scan a ((addr, s) ∷ m) alive servers (inl h) = elim (Bool-cases (is_alive timeout now s)) [
    | inl e ↦
        rw (scan_alive addr s m alive servers e)
          (Has-scan a m (alive ++ addr ∷ []) servers (inl (Has-append_left a alive (addr ∷ []) h)))
    | inr e ↦
        rw (scan_dead addr s m alive servers e)
          (Has-scan a m alive (Table.delete text_discrete addr servers) (inl h))
  ]
  Has-scan a ((addr, s) ∷ m) alive servers (inr (u, e, l)) = elim (text_discrete addr a) [
    | yes q ↦ rw (scan_alive addr s m alive servers (is_alive_head u s addr a m q e l)) (
        Has-scan a m (alive ++ addr ∷ []) servers
          (inl (Has-append_right a alive (addr ∷ []) (inl q))))
    | no q ↦
        let e' : Table.get text_discrete a m ≡ some u = (rw (if_neg _ q) at e) in
        elim (Bool-cases (is_alive timeout now s)) [
          | inl b ↦
              rw (scan_alive addr s m alive servers b)
                (Has-scan a m (alive ++ addr ∷ []) servers (inr (u, e', l)))
          | inr b ↦
              rw (scan_dead addr s m alive servers b)
                (Has-scan a m alive (Table.delete text_discrete addr servers) (inr (u, e', l)))
        ]
  ]
    where
      is_alive_head :
          (u s : ServerItem) (addr a : Text) (m : Table Text ServerItem)
          → addr ≡ a
          → ite (text_discrete addr a) (some s) (Table.get text_discrete a m) ≡ some u
          → is_alive timeout now u ≡ true
          → is_alive timeout now s ≡ true
      is_alive_head u s addr a m q e l = ground arith

  pub Has-of_scan :
      (a : Text) (m : Table Text ServerItem) (alive : List Text) (servers : Table Text ServerItem)
      → Table.IsUnique text_discrete m
      → Has a (scan timeout now m alive servers).0
      → Has a alive
        ⊎ ((s : ServerItem) × (Table.get text_discrete a m ≡ some s)
            × (is_alive timeout now s ≡ true))
  unfolding scan Table.get
  Has-of_scan a [] alive servers u h = inl h
  Has-of_scan a ((addr, s) ∷ m) alive servers (n, u) h =
      elim (Bool-cases (is_alive timeout now s)) [
        | inl e ↦
            elim (Has-of_scan a m (alive ++ addr ∷ []) servers u
              (rw (scan_alive addr s m alive servers e) at h)) [
                | inl p ↦ elim (Has-append a alive (addr ∷ []) p) [
                  | inl p' ↦ inl p'
                  | inr (inl q) ↦ inr (s, ground arith, e)
                  | inr (inr q) ↦ elim q [ ]
                ]
                | inr (t, g, l) ↦ inr (t, ground arith, l)
              ]
        | inr e ↦
            elim (Has-of_scan a m alive (Table.delete text_discrete addr servers) u
              (rw (scan_dead addr s m alive servers e) at h)) [
                | inl p ↦ inl p
                | inr (t, g, l) ↦ inr (t, ground arith, l)
              ]
      ]
