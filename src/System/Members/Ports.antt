-- ===== src/System/Members/Ports.antt =====
-- A bridge after its ports were updated without an error.
use jack.Base.{
  String, ◌==◌, ◌≡◌, not, ◌&&◌, ◌||◌, none, some, List, [], ◌∷◌, refl, sym, ap, ◌∙◌, inl, inr,
  arith, Bool-cases,
}
use jack.Base.Lists.{mem}
use jack.Base.Outcome.{ok}
use jack.System.Members.{
  Kernel, Step, and_then, port_found, add_port_to_bridge, remove_port_from_bridge, remove_ports,
  add_ports, update_from, update_bridge_ports,
}
use jack.System.Members.Exact.{mem-cong}

-- A call of netlink that returns no error did what it says; others may leave anything.
pub record IsHonest (kernel : Kernel) : Type 0 where
  pub present : kernel.World → List String
  pub listed : (w : kernel.World) → kernel.ports w ≡ ok (present w)
  pub freed :
      (x p : String) (w : kernel.World)
      → (kernel.set_no_master p w).0 ≡ none
      → mem x (present (kernel.set_no_master p w).1) ≡ (not (p == x) && mem x (present w))
  pub taken :
      (x p : String) (w : kernel.World)
      → (kernel.set_master p w).0 ≡ none
      → mem x (present (kernel.set_master p w).1) ≡ (p == x || mem x (present w))
  pub raised :
      (x p : String) (w : kernel.World) → mem x (present (kernel.set_up p w).1) ≡ mem x (present w)

module _ (kernel : Kernel) where
  pub and_then-eq :
      (r : Step kernel) (next : kernel.World → Step kernel)
      → (and_then kernel r next).0 ≡ none
      → (r.0 ≡ none) × (and_then kernel r next ≡ next r.1)
  and_then-eq (none, w) next e = (refl, refl)
  and_then-eq (some m, w) next e = cc

  module _ (h : IsHonest kernel) (x : String) where
    removed :
        (p : String) (w : kernel.World)
        → (remove_port_from_bridge kernel p w).0 ≡ none
        → mem x (h.present (remove_port_from_bridge kernel p w).1)
          ≡ (not (p == x) && mem x (h.present w))
    unfolding remove_port_from_bridge
    removed p w e =
        let (found, next) = and_then-eq (port_found kernel p w) (λ v. kernel.set_no_master p v) e in
        rw next (h.freed x p w (sym (ap (λ r. r.0) next) ∙ e))

    added :
        (p : String) (w : kernel.World)
        → (add_port_to_bridge kernel p w).0 ≡ none
        → mem x (h.present (add_port_to_bridge kernel p w).1) ≡ (p == x || mem x (h.present w))
    unfolding add_port_to_bridge
    added p w e =
        let rest : kernel.World → Step kernel =
          λ v. and_then kernel (kernel.set_up p v) (λ u. kernel.set_master p u) in
        let (found, next) = and_then-eq (port_found kernel p w) rest e in
        let e₁ = sym (ap (λ r. r.0) next) ∙ e in
        let (up, mastered) = and_then-eq (kernel.set_up p w) (λ u. kernel.set_master p u) e₁ in
        let e₂ = sym (ap (λ r. r.0) mastered) ∙ e₁ in
        rw (next, mastered) (h.taken x p (kernel.set_up p w).1 e₂ ∙ ground (arith, h.raised x p w))

    mem-remove_ports :
        (wanted current : List String) (w : kernel.World)
        → (remove_ports kernel wanted current w).0 ≡ none
        → mem x (h.present (remove_ports kernel wanted current w).1)
          ≡ (mem x (h.present w) && (mem x wanted || not (mem x current)))
    unfolding remove_ports mem
    mem-remove_ports wanted [] w e = ground arith
    mem-remove_ports wanted (p ∷ ps) w e = elim (Bool-cases (mem p wanted)) [
      | inl keep ↦
          rw keep
            (ground (arith, mem-remove_ports wanted ps w (rw keep at e), mem-cong p x wanted, keep))
      | inr extra ↦
          let (gone, next) =
            and_then-eq (remove_port_from_bridge kernel p w) (λ v. remove_ports kernel wanted ps v)
              (rw extra at e) in
          rw (extra, next)
            (ground (
              arith,
              mem-remove_ports wanted ps (remove_port_from_bridge kernel p w).1
                  (sym (ap (λ r. r.0) next) ∙ rw extra at e),
              removed p w gone,
              mem-cong p x wanted,
              extra,
            ))
    ]

    mem-add_ports :
        (current wanted : List String) (w : kernel.World)
        → (add_ports kernel current wanted w).0 ≡ none
        → mem x (h.present (add_ports kernel current wanted w).1)
          ≡ (mem x (h.present w) || mem x wanted && not (mem x current))
    unfolding add_ports mem
    mem-add_ports current [] w e = ground arith
    mem-add_ports current (p ∷ ps) w e = elim (Bool-cases (mem p current)) [
      | inl have ↦
          rw have
            (ground (arith, mem-add_ports current ps w (rw have at e), mem-cong p x current, have))
      | inr lack ↦
          let (gained, next) =
            and_then-eq (add_port_to_bridge kernel p w) (λ v. add_ports kernel current ps v)
              (rw lack at e) in
          rw (lack, next)
            (ground (
              arith,
              mem-add_ports current ps (add_port_to_bridge kernel p w).1
                  (sym (ap (λ r. r.0) next) ∙ rw lack at e),
              added p w gained,
              mem-cong p x current,
              lack,
            ))
    ]

-- An update of the ports of a bridge that ends without an error leaves exactly the ports that are
-- wanted, if a call of netlink that returns no error did what it says.
pub update_bridge_ports_exact :
    (kernel : Kernel) (h : IsHonest kernel) (wanted : List String) (w : kernel.World) (x : String)
    → (update_bridge_ports kernel wanted w).0 ≡ none
    → mem x (h.present (update_bridge_ports kernel wanted w).1) ≡ mem x wanted
unfolding update_bridge_ports update_from
update_bridge_ports_exact kernel h wanted w x e =
    let current = h.present w in
    let e₁ = rw (h.listed w) at e in
    let (gone, next) =
      and_then-eq kernel (remove_ports kernel wanted current w)
        (λ v. add_ports kernel current wanted v) e₁ in
    rw (h.listed w, next)
      (mem-add_ports kernel h x current wanted (remove_ports kernel wanted current w).1
          (sym (ap (λ r. r.0) next) ∙ e₁)
        ∙ ground (arith, mem-remove_ports kernel h x wanted current w gone))
