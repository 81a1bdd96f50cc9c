-- ===== src/Sequencing/Commitment/Legacy.antt =====
-- GenerateCommitment of pkg/sequencing/commitment.go, for a single order. Its float64 values and the
-- verb `%f` that prints them are parameters.
use secureorder.Prelude.{◌∷◌, ◌++◌, ◌≡◌, ◌≢◌, ap, arith, length, length-append, append_assoc}
use secureorder.Prelude.Int.{ℤ}
use secureorder.Error.{Bytes}
use secureorder.Encoding.Hex.{hex_encode}
use secureorder.Encoding.Decimal.{format_int}

pub record OrderMetadata (F : Type 0) : Type 0 where
  pub order_id : Bytes
  pub user : Bytes
  pub token : Bytes
  pub amount : F
  pub price : F
  pub timestamp : ℤ
  pub nonce : Bytes

module _ {F : Type 0} (format_float : F → Bytes) (sha256 : Bytes → Bytes) where
  -- The text that is hashed, with the bar between the fields.
  order_text : OrderMetadata F → Bytes
  order_text o =
      o.order_id
      ++ b'|' ∷ o.user
      ++ b'|' ∷ o.token
      ++ b'|' ∷ format_float o.amount
      ++ b'|' ∷ format_float o.price
      ++ b'|' ∷ format_int o.timestamp
      ++ b'|' ∷ o.nonce

  unfoldable pub generate_commitment : OrderMetadata F → Bytes
  unfolding order_text
  generate_commitment o = hex_encode (sha256 (order_text o))

  -- A bar inside a field moves the boundary of the fields: an order whose user ends in a bar and
  -- more, and one with the shorter user and that more and a bar in front of its token, have the same
  -- commitment, whatever the other fields are, though their users differ.
  pub generate_commitment_ambiguous :
      (o : OrderMetadata F) (more : Bytes)
      → (generate_commitment (record o { user = o.user ++ b'|' ∷ more })
          ≡ generate_commitment (record o { token = more ++ b'|' ∷ o.token }))
        × (o.user ++ b'|' ∷ more ≢ o.user)
  unfolding generate_commitment
  generate_commitment_ambiguous o more = (simp append_assoc, longer)
    where
      longer : o.user ++ b'|' ∷ more ≢ o.user
      longer same = omega (arith, ap length same, length-append o.user (b'|' ∷ more))
