-- ===== src/AddressBdd/Canonical.antt =====
-- One diagram for each set (src/base/address_bdd.c).
use lotto.Base.{
  ℕ, zero, suc, ◌+◌, ◌-◌, ◌^◌, subst, ◌≤◌, ◌<◌, ◌≡◌, refl, sym, ap, ◌∙◌, true, false, not, ◌&&◌,
  ltb, arith, if◌then◌else◌, ok, ◌>>=◌, Returned, ◌==◌,
}
use lotto.Base.Words.{u64_mod}
use lotto.AddressBdd.{
  Node, terminal, node, split, merge, AddressBdd, address_bdd_set, address_bdd_unset, set_value,
  end_address,
}
use lotto.AddressBdd.Blocks.{width, contains, contains-split, IsReduced, split-IsReduced, width_pos}
use lotto.AddressBdd.Sets.{
  IsBdd, Assigned, bdd_contains, touches, root-width, unit_pos, set_value-Returns,
}

merge-split : (t : Node) (d : ℕ) → IsReduced t (suc d) → merge (split t).0 (split t).1 ≡ t
unfolding merge split
merge-split (terminal true) d h = refl
merge-split (terminal false) d h = refl
merge-split (node z o) d h = h.0

reduced_unique :
    (unit : ℕ)
    → 0 < unit
    → (d : ℕ) (s t : Node) (start : ℕ) → IsReduced s d
    → IsReduced t d
    → ((x : ℕ)
        → start ≤ x
        → x < start + width unit d
        → contains unit s d start x ≡ contains unit t d start x)
    → s ≡ t
unfolding contains
reduced_unique unit pos zero (terminal u) (terminal v) start hs ht same =
    ap terminal (same start (omega arith) (omega arith))
reduced_unique unit pos zero (node z o) t start hs ht same = absurd hs
reduced_unique unit pos zero s (node z o) start hs ht same = absurd ht
reduced_unique unit pos (suc d) s t start hs ht same =
    let (sz, so) = split-IsReduced s d hs in
    let (tz, to) = split-IsReduced t d ht in
    let w = width_pos unit d pos in
    let zeros : (split s).0 ≡ (split t).0 =
      reduced_unique unit pos d (split s).0 (split t).0 start sz tz (λ x l u.
        ground (arith, same x, contains-split unit s d start x, contains-split unit t d start x)) in
    let ones : (split s).1 ≡ (split t).1 =
      reduced_unique unit pos d (split s).1 (split t).1 (start + width unit d) so to (λ x l u.
        ground
          (arith, w, same x, contains-split unit s d start x, contains-split unit t d start x)) in
    sym (merge-split s d hs)
    ∙ ap (λ z. merge z (split s).1) zeros
    ∙ ap (λ o. merge (split t).0 o) ones
    ∙ merge-split t d ht

AddressBdd_ext :
    (a b : AddressBdd)
    → a.root ≡ b.root
    → a.max_depth ≡ b.max_depth
    → a.size_unit ≡ b.size_unit
    → a ≡ b
AddressBdd_ext a b roots depths units =
    ap (λ t. record { root = t; max_depth = a.max_depth; size_unit = a.size_unit }) roots
    ∙ ap (λ d. record { root = b.root; max_depth = d; size_unit = a.size_unit }) depths
    ∙ ap (λ u. record { root = b.root; max_depth = b.max_depth; size_unit = u }) units

-- Two well-formed diagrams of one depth with the same set are equal.
pub bdd_unique :
    (a b : AddressBdd)
    → IsBdd a
    → IsBdd b
    → a.max_depth ≡ b.max_depth
    → ((x : ℕ) → bdd_contains a x ≡ bdd_contains b x)
    → a ≡ b
unfolding bdd_contains
bdd_unique a b ha hb depth same =
    let unit : a.size_unit ≡ b.size_unit =
      ha.unit_size ∙ ap (λ d. 2 ^ (64 - d)) depth ∙ sym hb.unit_size in
    let roots : a.root ≡ b.root =
      reduced_unique b.size_unit (unit_pos b hb) b.max_depth a.root b.root 0
        (subst (λ d. IsReduced a.root d) depth ha.reduced) hb.reduced
        (λ x l u.
          let moved : (ltb x u64_mod && contains b.size_unit a.root b.max_depth 0 x)
              ≡ bdd_contains b x =
            subst (λ w. (ltb x u64_mod && contains w a.root b.max_depth 0 x) ≡ bdd_contains b x)
              unit
              (subst (λ d. (ltb x u64_mod && contains a.size_unit a.root d 0 x) ≡ bdd_contains b x)
                depth (same x)) in
          ground (arith, moved, root-width b hb)) in
    AddressBdd_ext a b roots depth unit

undone :
    (b c e : AddressBdd) (addr size x : ℕ)
    → c.size_unit ≡ b.size_unit
    → bdd_contains c x ≡ (
        if not (size == 0) && touches b.size_unit addr (end_address addr size) x
        then true
        else bdd_contains b x)
    → bdd_contains e x ≡ (
        if not (size == 0) && touches c.size_unit addr (end_address addr size) x
        then false
        else bdd_contains c x)
    → (touches b.size_unit addr (end_address addr size) x ≡ true → bdd_contains b x ≡ false)
    → bdd_contains e x ≡ bdd_contains b x
undone b c e addr size x unit set_c set_e outside =
    let touched : touches c.size_unit addr (end_address addr size) x
        ≡ touches b.size_unit addr (end_address addr size) x =
      ap (λ w. touches w addr (end_address addr size) x) unit in
    ground arith

-- On a well-formed diagram whose set has no address in the units that a range touches, setting the
-- range and clearing it again returns the very same diagram.
pub unset-set :
    (b : AddressBdd) (addr size : ℕ)
    → IsBdd b
    → ((x : ℕ)
        → touches b.size_unit addr (end_address addr size) x ≡ true
        → bdd_contains b x ≡ false)
    → (do b' ← address_bdd_set b addr size; address_bdd_unset b' addr size) ≡ ok b
unfolding address_bdd_set address_bdd_unset
unset-set b addr size h outside =
    let (c, set_eq, (hc, depth_c, unit_c, set_c)) =
      Returned (Assigned b addr size true) (set_value b addr size true)
        (set_value-Returns b addr size true h) in
    let (e, unset_eq, (he, depth_e, unit_e, set_e)) =
      Returned (Assigned c addr size false) (set_value c addr size false)
        (set_value-Returns c addr size false hc) in
    rw (set_eq, unset_eq)
      (ap ok (
        bdd_unique e b he h (depth_e ∙ depth_c)
          (λ x. undone b c e addr size x unit_c (set_c x) (set_e x) (outside x))))
