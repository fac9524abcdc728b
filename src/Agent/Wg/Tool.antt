-- ===== src/Agent/Wg/Tool.antt =====
-- What the agent relies on: the documented behaviour of `wg` and `wg-quick` on one interface, and
-- that a `range` over a map visits its entries, each once, in some order.
use proxify_vpn.Agent.Listing.{PeerMap, parse_dump}
use proxify_vpn.Agent.Wg.{Client, list_peers, remove_args, remove_key, save, set_args, set_key}
use proxify_vpn.Agent.Wg.Dump.{
  DumpRow, IsHeader, IsRow, parse_dump-print_dump, print_dump, put_rows,
}
use proxify_vpn.Base.{
  All, Bool-cases, List, Option, String, [], ap, false, if◌then◌else◌, inl, inr, none, refl, some,
  sym, ℕ, ◌<◌, ◌=?◌, ◌^◌, ◌∙◌, ◌∷◌, ◌≡◌, ◌≢◌,
}
use proxify_vpn.Base.Effects.{then_ok}
use proxify_vpn.Base.Rows.{exists_row}
use proxify_vpn.Edge.Fake.{keyed_by, lookup}
use proxify_vpn.Errors.{Result-cases, ok, ok-inj}

-- The interface as the kernel has it: the peers' lines, and the line about the interface.
pub record Tool (S : Type 0) : Type 0 where
  pub rows : S → List DumpRow
  pub header : S → String

-- Whether the interface has a peer, and the first of its addresses.
abbrev pub held : {S : Type 0} → Tool S → S → String → Option (Option ℕ)
held tool s key = lookup key (put_rows [] (tool.rows s))

abbrev pub IsMap : PeerMap → Type 0
IsMap m = All (λ e. lookup e.0 m ≡ some e.1) m

pub record IsWireGuard {S : Type 0} (c : Client S) (tool : Tool S) : Type 1 where
  -- `wg show` prints the interface and changes nothing
  pub shows :
      (s : S) (out : String)
      → (c.runner "wg" ("show" ∷ c.iface ∷ "dump" ∷ []) s).0 ≡ ok out
      → out ≡ print_dump (tool.header s) (tool.rows s)
  pub show_quiet : (s : S) → (c.runner "wg" ("show" ∷ c.iface ∷ "dump" ∷ []) s).1 ≡ s
  pub header_printable : (s : S) → IsHeader (tool.header s)
  pub rows_printable : (s : S) → All IsRow (tool.rows s)
  -- `wg set … peer … remove`
  pub removes :
      (key : String) (s : S) (out : String)
      → (c.runner "wg" (remove_args c key) s).0 ≡ ok out
      → (k : String)
      → held tool (c.runner "wg" (remove_args c key) s).1 k
        ≡ (if key =? k then none else held tool s k)
  -- `wg set … peer … allowed-ips`: an address belongs to one peer, so another may lose it
  pub sets :
      (key : String) (ip : ℕ) (s : S) (out : String)
      → ip < 2 ^ 32
      → (c.runner "wg" (set_args c key ip) s).0 ≡ ok out
      → held tool (c.runner "wg" (set_args c key ip) s).1 key ≡ some (some ip)
  pub sets_no_other :
      (key : String) (ip : ℕ) (s : S) (out : String)
      → (c.runner "wg" (set_args c key ip) s).0 ≡ ok out
      → (k : String) → (key =? k) ≡ false
      → held tool s k ≡ none
      → held tool (c.runner "wg" (set_args c key ip) s).1 k ≡ none
  pub sets_beside :
      (key : String) (ip : ℕ) (s : S) (out : String)
      → ip < 2 ^ 32
      → (c.runner "wg" (set_args c key ip) s).0 ≡ ok out
      → (k : String) (j : ℕ) → (key =? k) ≡ false
      → held tool s k ≡ some (some j)
      → j ≢ ip
      → held tool (c.runner "wg" (set_args c key ip) s).1 k ≡ some (some j)
  -- `wg-quick save` writes a file
  pub saves :
      (s : S) (k : String)
      → held tool (c.runner "wg-quick" ("save" ∷ c.iface ∷ []) s).1 k ≡ held tool s k
  -- `range`
  pub order_all :
      (P : String × Option ℕ → Type 0) (m : PeerMap) → IsMap m → All P m → All P (c.order m)
  pub order_keys :
      (k : String) (m : PeerMap) → exists_row (keyed_by k) (c.order m) ≡ exists_row (keyed_by k) m

module _ {S : Type 0} (c : Client S) (tool : Tool S) (W : IsWireGuard c tool) where
  pub remove_key-held :
      (key : String) (s s' : S)
      → remove_key c key s ≡ (ok tt, s')
      → (k : String) → held tool s' k ≡ (if key =? k then none else held tool s k)
  unfolding remove_key
  remove_key-held key s s' h k =
      let (out, e, after_call) = then_ok (c.runner "wg" (remove_args c key) s).0 _ _ h in
      let same = ap (λ x. x.1) after_call in
      ap (λ x. held tool x k) (sym same) ∙ W.removes key s out e k

  pub set_key-held :
      (key : String) (ip : ℕ) (s s' : S)
      → ip < 2 ^ 32
      → set_key c key ip s ≡ (ok tt, s')
      → (held tool s' key ≡ some (some ip))
        × ((k : String) → (key =? k) ≡ false → held tool s k ≡ none → held tool s' k ≡ none)
        × ((k : String) (j : ℕ)
            → (key =? k) ≡ false
            → held tool s k ≡ some (some j)
            → j ≢ ip
            → held tool s' k ≡ some (some j))
  unfolding set_key
  set_key-held key ip s s' small h =
      let (out, e, after_call) = then_ok (c.runner "wg" (set_args c key ip) s).0 _ _ h in
      let same = ap (λ x. x.1) after_call in
      (
        ap (λ x. held tool x key) (sym same) ∙ W.sets key ip s out small e,
        λ k other absent.
            ap (λ x. held tool x k) (sym same) ∙ W.sets_no_other key ip s out e k other absent,
        λ k j other there apart.
            ap (λ x. held tool x k) (sym same)
            ∙ W.sets_beside key ip s out small e k j other there apart,
      )

  pub save-held : (s : S) (k : String) → held tool (save c s).1 k ≡ held tool s k
  unfolding save
  save-held s k = elim (Bool-cases c.persist) [
    | inr off ↦ rw off refl
    | inl on ↦ rw on (elim (Result-cases (c.runner "wg-quick" ("save" ∷ c.iface ∷ []) s).0) [
      | inl (out, e) ↦ rw e (W.saves s k)
      | inr (x, e) ↦ rw e (W.saves s k)
    ])
  ]

  -- `ListPeers` gives the peers that the interface has.
  pub list_peers-held :
      (s s' : S) (m : PeerMap)
      → list_peers c s ≡ (ok m, s')
      → (s' ≡ s) × (m ≡ put_rows [] (tool.rows s))
  unfolding list_peers
  list_peers-held s s' m h =
      let (out, e, k) = then_ok (c.runner "wg" ("show" ∷ c.iface ∷ "dump" ∷ []) s).0 _ _ h in
      (
        sym (ap (λ x. x.1) k) ∙ W.show_quiet s,
        sym (ok-inj (ap (λ x. x.0) k))
            ∙ ap parse_dump (W.shows s out e)
            ∙ parse_dump-print_dump (tool.header s) (tool.rows s) (W.header_printable s)
                (W.rows_printable s),
      )
