-- ===== src/Ccm/Toy.antt =====
-- A toy cipher that stands for mbed TLS in tests: it appends the first byte of the key four times,
-- and checks the tag.
use open_ull_receiver.Base.{
  ℕ, ◌≡◌, refl, ap, none, some, List, [], ◌∷◌, ◌++◌, length, same_bytes, replicate, arith,
  if◌then◌else◌, length-append, take_over, drop_over, same_bytes_refl,
}
use open_ull_receiver.Ccm.{Mbedtls}
use open_ull_receiver.Ccm.Sealed.{Opens}

unfoldable pub tag : List ℕ → List ℕ
tag [] = replicate 4 0
tag (k ∷ key) = k ∷ k ∷ k ∷ k ∷ []

unfoldable pub toy : Mbedtls (List ℕ)
toy = record {
  setkey = λ key. some key;
  encrypt_and_tag = λ c n aad p. some (p ++ tag c);
  auth_decrypt = λ c n aad p t. if same_bytes 4 t (tag c) then some p else none;
}

length-tag : (c : List ℕ) → length (tag c) ≡ 4
unfolding tag
length-tag [] = refl
length-tag (k ∷ key) = refl

pub toy-Opens : Opens toy
unfolding toy
toy-Opens = record {
  tagged = λ c n aad p q h.
      let e : q ≡ p ++ tag c = ground arith in
      rw e (omega (arith, length-append p (tag c), length-tag c));
  opened = λ c n aad p q h.
      let e : q ≡ p ++ tag c = ground arith in
      rw e (
        rw (drop_over (length p) 0 (length p) p (tag c) refl (omega arith)) (
          rw (same_bytes_refl 4 (tag c) (length-tag c))
            (ap (λ (x : List ℕ). some x) (take_over (length p) p (tag c) refl))));
}
