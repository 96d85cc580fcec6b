-- ===== src/Traceroute/Datagrams/Identifiers.antt =====
-- The identifiers in what main.cc of A5/Traceroute reads in its buffer.
use aip_pkussm.Prelude.{
  ℕ, zero, suc, ◌+◌, ◌*◌, ◌<◌, ◌≡◌, refl, ap, Option, some_inj, none, some, List, [], ◌∷◌, ◌++◌,
  drop, get_elem?, CString, arith,
}
use aip_pkussm.Traceroute.Hops.{Received}
use aip_pkussm.Traceroute.Datagrams.{Icmp, icmp_at, ip_at, ◌>>=◌, shift_bytes, received_of}

-- Bytes.
abbrev pub AreBytes : List ℕ → Type 0
AreBytes [] = Unit
AreBytes (x ∷ xs) = (x < 256) × AreBytes xs

pub AreBytes-append : (xs ys : List ℕ) → AreBytes xs → AreBytes ys → AreBytes (xs ++ ys)
AreBytes-append [] ys a b = b
AreBytes-append (x ∷ xs) ys (low, a) b = (low, AreBytes-append xs ys a b)

pub AreBytes-drop : (n : ℕ) (xs : List ℕ) → AreBytes xs → AreBytes (drop n xs)
AreBytes-drop zero xs a = a
AreBytes-drop (suc n) [] a = tt
AreBytes-drop (suc n) (x ∷ xs) (low, a) = AreBytes-drop n xs a

get_elem?-low : (xs : List ℕ) (i x : ℕ) → AreBytes xs → get_elem? xs i ≡ some x → x < 256
get_elem?-low [] i x a e = absurd cc
get_elem?-low (y ∷ xs) zero x (low, a) e = let same : y ≡ x = some_inj e in omega arith
get_elem?-low (y ∷ xs) (suc i) x (low, a) e = get_elem?-low xs i x a e

bind-some :
    {A B : Type 0} (o : Option A) (f : A → Option B) (b : B)
    → (o >>= f) ≡ some b
    → (a : A) × (o ≡ some a) × (f a ≡ some b)
bind-some none f b e = absurd cc
bind-some (some a) f b e = (a, refl, e)

icmp_at-low : (ptr : List ℕ) (h : Icmp) → AreBytes ptr → icmp_at ptr ≡ some h → h.icmp_id < 65536
unfolding icmp_at
icmp_at-low ptr h bytes e =
    let (t, _, e1) = bind-some (get_elem? ptr 0) _ h e in
    let (c, _, e2) = bind-some (get_elem? ptr 1) _ h e1 in
    let (low, l, e3) = bind-some (get_elem? ptr 4) _ h e2 in
    let (high, g, e4) = bind-some (get_elem? ptr 5) _ h e3 in
    let (s1, _, e5) = bind-some (get_elem? ptr 6) _ h e4 in
    let (s2, _, e6) = bind-some (get_elem? ptr 7) _ h e5 in
    let id : low + high * 256 ≡ h.icmp_id = ap (λ (i : Icmp). i.icmp_id) (some_inj e6) in
    omega (arith, get_elem?-low ptr 4 low bytes l, get_elem?-low ptr 5 high bytes g)

-- The identifiers of a received packet have 16 bits.
module _ {Double : Type 0} where
  pub received_of-low :
      (source : CString) (elapsed : List Double) (buffer : List ℕ) (r : Received Double)
      → AreBytes buffer
      → received_of source elapsed buffer ≡ some r
      → (r.icmp_id < 65536) × (r.orig_id < 65536)
  unfolding received_of
  received_of-low source elapsed buffer r bytes e =
      let (h, _, e1) = bind-some (ip_at buffer) _ r e in
      let ptr = shift_bytes (h.ip_hl * 4) buffer in
      let here = AreBytes-drop (h.ip_hl * 4) buffer bytes in
      let (i, a, e2) = bind-some (icmp_at ptr) _ r e1 in
      let behind = shift_bytes 8 ptr in
      let there = AreBytes-drop 8 ptr here in
      let (h', _, e3) = bind-some (ip_at behind) _ r e2 in
      let (i', b, e4) = bind-some (icmp_at (shift_bytes (h'.ip_hl * 4) behind)) _ r e3 in
      let id : i.icmp_id ≡ r.icmp_id = ap (λ (x : Received Double). x.icmp_id) (some_inj e4) in
      let orig : i'.icmp_id ≡ r.orig_id = ap (λ (x : Received Double). x.orig_id) (some_inj e4) in
      (
        omega (arith, icmp_at-low ptr i here a),
        omega (
          arith,
          icmp_at-low (shift_bytes (h'.ip_hl * 4) behind) i'
              (AreBytes-drop (h'.ip_hl * 4) behind there) b,
        ),
      )
