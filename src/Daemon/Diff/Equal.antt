-- ===== src/Daemon/Diff/Equal.antt =====
-- Equality by parts is equality.
use jack.Base.{
  String, ◌==◌, ◌≡◌, ◌↔◌, Bool, true, false, Option, none, some, List, [], ◌∷◌, refl, sym, ◌∙◌, ap,
  arith, eq_iff, eq_refl,
}
use jack.Base.Int.{pos, eqz_iff}
use jack.Types.Network.{WireGuardPeer, Ipv6Config}
use jack.Daemon.Navigator.{Field, string, boolean, int, strings, peers, ipv6}
use jack.Daemon.Navigator.Laws.{SameKind}
use jack.Daemon.Diff.{
  same_bool, all_same, same_peer, same_ipv6, same_option, deep_equal, is_zero_value,
}

same_bool_iff : (a b : Bool) → same_bool a b ≡ true ↔ (a ≡ b)
same_bool_iff true b = (λ e. ground arith, λ e. ground arith)
same_bool_iff false b = (λ e. ground arith, λ e. ground arith)

all_same_iff {ℓ} :
    {A : Type ℓ} (same : A → A → Bool)
    → ((x y : A) → same x y ≡ true ↔ (x ≡ y))
    → (xs ys : List A) → all_same same xs ys ≡ true ↔ (xs ≡ ys)
unfolding all_same
all_same_iff same iff [] [] = (λ e. refl, λ e. refl)
all_same_iff same iff (x ∷ xs) (y ∷ ys) = (
  λ e. ground (arith, e, iff x y, all_same_iff same iff xs ys),
  λ e. ground (arith, e, iff x y, all_same_iff same iff xs ys),
)
all_same_iff same iff [] (y ∷ ys) = (λ e. cc, λ e. cc)
all_same_iff same iff (x ∷ xs) [] = (λ e. cc, λ e. cc)

same_texts_iff : (xs ys : List String) → all_same (λ a b. a == b) xs ys ≡ true ↔ (xs ≡ ys)
same_texts_iff = all_same_iff (λ a b. a == b) (λ a b. eq_iff a b)

same_peer_iff : (p q : WireGuardPeer) → same_peer p q ≡ true ↔ (p ≡ q)
unfolding same_peer
same_peer_iff p q = (
  λ e. ground (
    arith,
    e,
    eq_iff p.public_key q.public_key,
    eq_iff p.preshared_key q.preshared_key,
    eq_iff p.endpoint q.endpoint,
    eq_iff p.comment q.comment,
    same_texts_iff p.allowed_ips q.allowed_ips,
    eqz_iff p.persistent_keepalive q.persistent_keepalive,
  ),
  λ e. rw e (
      ground (
        arith,
        eq_refl q.public_key,
        eq_refl q.preshared_key,
        eq_refl q.endpoint,
        eq_refl q.comment,
        same_texts_iff q.allowed_ips q.allowed_ips,
        eqz_iff q.persistent_keepalive q.persistent_keepalive,
      )),
)

same_ipv6_iff : (p q : Ipv6Config) → same_ipv6 p q ≡ true ↔ (p ≡ q)
unfolding same_ipv6
same_ipv6_iff p q = (
  λ e. ground (
    arith,
    e,
    eq_iff p.protocol q.protocol,
    eq_iff p.ip6_addr q.ip6_addr,
    eq_iff p.ip6_gw q.ip6_gw,
    eq_iff p.ip6_prefix q.ip6_prefix,
    same_texts_iff p.dns6 q.dns6,
    same_bool_iff p.enabled q.enabled,
  ),
  λ e. rw e (
      ground (
        arith,
        eq_refl q.protocol,
        eq_refl q.ip6_addr,
        eq_refl q.ip6_gw,
        eq_refl q.ip6_prefix,
        same_texts_iff q.dns6 q.dns6,
        same_bool_iff q.enabled q.enabled,
      )),
)

same_option_iff {ℓ} :
    {A : Type ℓ} (same : A → A → Bool)
    → ((x y : A) → same x y ≡ true ↔ (x ≡ y))
    → (a b : Option A) → same_option same a b ≡ true ↔ (a ≡ b)
unfolding same_option
same_option_iff same iff none none = (λ e. refl, λ e. refl)
same_option_iff same iff (some a) (some b) =
    (λ e. ap some ((iff a b).0 e), λ e. (iff a b).1 (ground (arith, e)))
same_option_iff same iff none (some b) = (λ e. cc, λ e. cc)
same_option_iff same iff (some a) none = (λ e. cc, λ e. cc)

pub deep_equal-eq : (f g : Field) → deep_equal f g ≡ true → f ≡ g
unfolding deep_equal
deep_equal-eq (string a) (string b) e = ap string ((eq_iff a b).0 e)
deep_equal-eq (boolean a) (boolean b) e = ap boolean ((same_bool_iff a b).0 e)
deep_equal-eq (int a) (int b) e = ap int ((eqz_iff a b).0 e)
deep_equal-eq (strings a) (strings b) e = ap strings ((same_texts_iff a b).0 e)
deep_equal-eq (peers a) (peers b) e = ap peers ((all_same_iff same_peer same_peer_iff a b).0 e)
deep_equal-eq (ipv6 a) (ipv6 b) e = ap ipv6 ((same_option_iff same_ipv6 same_ipv6_iff a b).0 e)
deep_equal-eq _ _ e = cc

pub deep_equal_refl : (f : Field) → deep_equal f f ≡ true
unfolding deep_equal
deep_equal_refl (string a) = eq_refl a
deep_equal_refl (boolean a) = (same_bool_iff a a).1 refl
deep_equal_refl (int a) = (eqz_iff a a).1 refl
deep_equal_refl (strings a) = (same_texts_iff a a).1 refl
deep_equal_refl (peers a) = (all_same_iff same_peer same_peer_iff a a).1 refl
deep_equal_refl (ipv6 a) = (same_option_iff same_ipv6 same_ipv6_iff a a).1 refl

-- Two zero values of one kind are equal.
pub zero-eq : (f g : Field) → SameKind f g → is_zero_value f ≡ true → is_zero_value g ≡ true → f ≡ g
unfolding is_zero_value
zero-eq (string a) (string b) k e h = ap string (ground (arith, eq_iff a "", eq_iff b "", e, h))
zero-eq (boolean true) (boolean b) k e h = cc
zero-eq (boolean false) (boolean true) k e h = cc
zero-eq (boolean false) (boolean false) k e h = refl
zero-eq (int a) (int b) k e h = ap int ((eqz_iff a (pos 0)).0 e ∙ sym ((eqz_iff b (pos 0)).0 h))
zero-eq (strings []) (strings []) k e h = refl
zero-eq (strings (x ∷ xs)) (strings b) k e h = cc
zero-eq (strings []) (strings (y ∷ ys)) k e h = cc
zero-eq (peers []) (peers []) k e h = refl
zero-eq (peers (x ∷ xs)) (peers b) k e h = cc
zero-eq (peers []) (peers (y ∷ ys)) k e h = cc
zero-eq (ipv6 none) (ipv6 none) k e h = refl
zero-eq (ipv6 (some a)) (ipv6 b) k e h = cc
zero-eq (ipv6 none) (ipv6 (some b)) k e h = cc
zero-eq _ _ k e h = absurd k
