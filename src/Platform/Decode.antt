-- ===== src/Platform/Decode.antt =====
-- What `decode` returns: the unmarshalled bytes, once their fields are exactly the expected ones.
use agro_chain.Base.{String, List, ◌≡◌, sym}
use agro_chain.Codes.{ok, from_bind, from_guard, ok-injective}
use agro_chain.Model.{Bytes}
use agro_chain.Platform.{Platform, Codec, decode}

pub decode-eq-ok :
    (p : Platform) {A : Type 0} (codec : Codec A) (dst : A) (raw : Bytes) (fields : List String)
    (v : A)
    → decode p codec dst raw fields ≡ ok v
    → v ≡ (codec.unmarshal dst raw).0
unfolding decode
decode-eq-ok p codec dst raw fields v h = from_bind _ _ h λ j _ h₁.
    from_bind _ _ h₁
      λ m _ h₂. from_guard _ _ _ h₂ λ _ h₃. from_guard _ _ _ h₃ λ _ h₄. sym (ok-injective h₄)
