-- ===== src/CableAddress/Order.antt =====
-- `operator<` and `operator==` of addresses, by which the sets of cables find their members.
use showtime_cpp.Common.{◌≡◌, refl, true, false, not, ◌&&◌, arith}
use showtime_cpp.Uri.Order.{
  IsKey, ExactlyOne, less_trichotomy, less_strict, less_neg_trans, equal_class, equal_refl,
  equal_sym,
}
use showtime_cpp.OrderedSet.{StrictOrder}
use showtime_cpp.CableAddress.{CableAddress, address_eq, address_less}

pub record IsAddress (a : CableAddress) : Type 0 where
  pub input_key : IsKey a.input_uri
  pub output_key : IsKey a.output_uri

-- Of two addresses whose texts are bytes without NUL, exactly one of `a < b`, `a == b` and `b < a`
-- holds.
pub address_trichotomy :
    (a b : CableAddress)
    → IsAddress a
    → IsAddress b
    → ExactlyOne (address_less a b) (address_eq a b) (address_less b a)
unfolding address_eq address_less
address_trichotomy a b ka kb = ground (
  arith,
  less_trichotomy a.input_uri b.input_uri ka.input_key kb.input_key,
  less_trichotomy a.output_uri b.output_uri ka.output_key kb.output_key,
)

pub address_less_laws :
    (a b c : CableAddress)
    → (address_less a a ≡ false)
      × (address_less a b ≡ true → address_less b c ≡ true → address_less a c ≡ true)
unfolding address_less
address_less_laws a b c = (
  ground (
    arith,
    less_strict a.input_uri a.input_uri a.input_uri,
    less_strict a.output_uri a.output_uri a.output_uri,
  ),
  λ h k. ground (
    arith,
    less_strict a.input_uri b.input_uri c.input_uri,
    less_strict a.output_uri b.output_uri c.output_uri,
    less_neg_trans a.input_uri b.input_uri c.input_uri,
    less_neg_trans b.input_uri c.input_uri a.input_uri,
    less_neg_trans c.input_uri a.input_uri b.input_uri,
  ),
)

pub address_less_neg_trans :
    (a b c : CableAddress)
    → address_less b a ≡ false
    → address_less c b ≡ false
    → address_less c a ≡ false
unfolding address_less
address_less_neg_trans a b c h k = ground (
  arith,
  less_strict a.input_uri b.input_uri c.input_uri,
  less_strict c.input_uri b.input_uri a.input_uri,
  less_strict c.input_uri a.input_uri b.input_uri,
  less_strict b.input_uri c.input_uri a.input_uri,
  less_strict a.input_uri c.input_uri b.input_uri,
  less_strict b.input_uri a.input_uri c.input_uri,
  less_neg_trans a.input_uri b.input_uri c.input_uri,
  less_neg_trans b.input_uri c.input_uri a.input_uri,
  less_neg_trans c.input_uri a.input_uri b.input_uri,
  less_neg_trans c.input_uri b.input_uri a.input_uri,
  less_neg_trans b.input_uri a.input_uri c.input_uri,
  less_neg_trans a.input_uri c.input_uri b.input_uri,
  less_neg_trans a.output_uri b.output_uri c.output_uri,
)

pub address_less-StrictOrder : StrictOrder address_less
address_less-StrictOrder = record {
  irrefl = λ a. (address_less_laws a a a).0;
  trans = λ a b c. (address_less_laws a b c).1;
  neg_trans = address_less_neg_trans;
}

-- Equality and equivalence in the order are the same on keys.
pub address_eq-equivalent :
    (a b : CableAddress)
    → IsAddress a
    → IsAddress b
    → address_eq a b ≡ (not (address_less a b) && not (address_less b a))
address_eq-equivalent a b ka kb = ground (arith, address_trichotomy a b ka kb)

-- An address that equals the first of two that differ differs from the second.
pub address_eq_apart :
    (c a b : CableAddress) → address_eq c a ≡ true → address_eq a b ≡ false → address_eq c b ≡ false
unfolding address_eq
address_eq_apart c a b e d = ground (
  arith,
  equal_class c.input_uri a.input_uri b.input_uri,
  equal_class c.output_uri a.output_uri b.output_uri,
)

pub address_eq_refl : (a : CableAddress) → address_eq a a ≡ true
unfolding address_eq
address_eq_refl a = rw (equal_refl a.input_uri, equal_refl a.output_uri) refl

pub address_eq_sym : (a b : CableAddress) → address_eq a b ≡ address_eq b a
unfolding address_eq
address_eq_sym a b =
    rw (equal_sym a.input_uri b.input_uri, equal_sym a.output_uri b.output_uri) refl

pub address_eq_class :
    (c a b : CableAddress) → address_eq c a ≡ true → address_eq c b ≡ address_eq a b
unfolding address_eq
address_eq_class c a b e = ground (
  arith,
  equal_class c.input_uri a.input_uri b.input_uri,
  equal_class c.output_uri a.output_uri b.output_uri,
)

-- The order of addresses is strict: where `a < b` and `b < c`, also `a < c`, and neither `c < a` nor
-- `a < a`.
pub address_less_strict :
    (a b c : CableAddress)
    → address_less a b ≡ true
    → address_less b c ≡ true
    → (address_less a c ≡ true) × (address_less c a ≡ false) × (address_less a a ≡ false)
address_less_strict a b c h k = ground (arith, address_less_laws a b c, address_less_laws a c a)
