-- ===== src/Netpolicy/Chains.antt =====
-- That the guard knows the chains and bridges of a sandbox by their names: chainName, inputChain and
-- bridgeIface of internal/docker/netpolicy.go, and the patterns of internal/dockerguard/policy.go.
use vaultrun.Guard.Names.{is_hex, after_hex, after_literal, hex_run, is_chain, is_bridge}
use vaultrun.Base.{
  length, all, Text, codes, is_empty, first_bytes, ℕ, zero, suc, ◌≤◌, ◌≡◌, refl, true, not, some,
  [], ◌∷◌, ◌++◌, arith, leb, and-eq_true,
}
use vaultrun.Netpolicy.{chain_name, input_chain, bridge_iface}

-- what stands behind the digits is "-in" or nothing
hex_run-append :
    (x : Text) → all is_hex x ≡ true → hex_run (x ++ codes "-in") ≡ (length x, codes "-in")
unfolding hex_run
hex_run-append [] h = refl
hex_run-append (c ∷ x) h =
    let (hex, rest) = and-eq_true (is_hex c) (all is_hex x) h in
    rw (hex_run-append x rest) (rw hex refl)

hex_run-all : (x : Text) → all is_hex x ≡ true → hex_run x ≡ (length x, [])
unfolding hex_run
hex_run-all [] h = refl
hex_run-all (c ∷ x) h =
    let (hex, rest) = and-eq_true (is_hex c) (all is_hex x) h in
    rw (hex_run-all x rest) (rw hex refl)

all-first_bytes : (n : ℕ) (s : Text) → all is_hex s ≡ true → all is_hex (first_bytes n s) ≡ true
all-first_bytes zero s h = refl
all-first_bytes (suc n) [] h = refl
all-first_bytes (suc n) (c ∷ s) h =
    let (hex, rest) = and-eq_true (is_hex c) (all is_hex s) h in rw hex (all-first_bytes n s rest)

length-first_bytes : (n : ℕ) (s : Text) → length (first_bytes n s) ≤ n
length-first_bytes zero s = omega arith
length-first_bytes (suc n) [] = omega arith
length-first_bytes (suc n) (c ∷ s) = let rest = length-first_bytes n s in (omega (arith, rest))

after_hex-first_bytes :
    (n : ℕ) (s : Text)
    → all is_hex s ≡ true
    → n ≤ length s
    → after_hex n (first_bytes n s) ≡ some []
unfolding after_hex
after_hex-first_bytes zero s h k = refl
after_hex-first_bytes (suc n) [] h k = absurd (omega (arith, k))
after_hex-first_bytes (suc n) (c ∷ s) h k =
    let (hex, rest) = and-eq_true (is_hex c) (all is_hex s) h in
    rw hex (after_hex-first_bytes n s rest (omega (arith, k)))

not_empty : (id : Text) → not (is_empty id) ≡ true → 1 ≤ length (first_bytes 12 id)
not_empty [] h = absurd cc
not_empty (c ∷ s) h = omega arith

module _ (id : Text) (hex : all is_hex id ≡ true) (some_ : not (is_empty id) ≡ true) where
  size_fits :
      (leb 1 (length (first_bytes 12 id)) ≡ true) × (leb (length (first_bytes 12 id)) 12 ≡ true)
  size_fits =
      let low = not_empty id some_ in
      let high = length-first_bytes 12 id in (ground (arith, low), ground (arith, high))

  pub is_chain-chain_name : is_chain (chain_name id) ≡ true
  unfolding is_chain after_literal
  is_chain-chain_name =
      rw (hex_run-all (first_bytes 12 id) (all-first_bytes 12 id hex))
        (rw size_fits.0 (rw size_fits.1 refl))

  pub is_chain-input_chain : is_chain (input_chain (chain_name id)) ≡ true
  unfolding is_chain after_literal
  is_chain-input_chain =
      rw (hex_run-append (first_bytes 12 id) (all-first_bytes 12 id hex))
        (rw size_fits.0 (rw size_fits.1 refl))

pub is_bridge-bridge_iface :
    (id : Text) → all is_hex id ≡ true → 12 ≤ length id → is_bridge (bridge_iface id) ≡ true
unfolding is_bridge after_literal
is_bridge-bridge_iface id hex long = rw (after_hex-first_bytes 12 id hex long) refl
