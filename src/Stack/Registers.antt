-- ===== src/Stack/Registers.antt =====
-- The register mode of `GlobalStack`.
-- `m_local` is a list whose head is the back of the vector. `zero_word` is the constant 0
-- of 256 bits.
use evmbt.Prelude.{
  ℕ, ◌+◌, ◌-◌, List, [], ◌∷◌, ◌++◌, length, get_or, set, replicate, leb, if◌then◌else◌,
}

unfoldable pub push {ℓ} : {A : Type ℓ} → A → List A → List A
push v m_local = v ∷ m_local

unfoldable pub pop {ℓ} : {A : Type ℓ} → A → List A → A × List A
pop zero_word [] = (zero_word, [])
pop zero_word (item ∷ m_local) = (item, m_local)

unfoldable pub dup {ℓ} : {A : Type ℓ} → A → ℕ → List A → List A
dup zero_word index m_local =
    if leb (length m_local) index
    then zero_word ∷ m_local
    else get_or m_local index zero_word ∷ m_local

-- With too few elements it only adds zeros.
unfoldable pub swap {ℓ} : {A : Type ℓ} → A → ℕ → List A → List A
swap zero_word index m_local =
    let src_val = get_or m_local (index + 1) zero_word in
    let dst_val = get_or m_local 0 zero_word in
    if leb (length m_local) (index + 1)
    then replicate (index + 2 - length m_local) zero_word ++ m_local
    else set (set m_local (index + 1) dst_val) 0 src_val
