-- ===== src/Farming.antt =====
-- `ValidateProofOfSpace` of lib/farming.go. The check of a plot's solution is that of the storageproof
-- package; ASCII 85 and SHA-256 are parameters too.
use shadowd.Common.{ℕ, Bool, false, Option, none, some, ◌∷◌, ◌++◌, if◌then◌else◌}
use shadowd.Common.Text.{Text}
use shadowd.Tx.External.{External}
use shadowd.Chain.{ProofOfSpace, signed_decimal}

pub record PlotEnv : Type 0 where
  -- `Solution.Verify`, of the hash, the public key, the signature and the distance
  pub verify_solution : Text → Text → Text → ℕ → Bool
  -- `ascii85.Encode` into a buffer of the largest encoded length, and `sha256.New`
  pub ascii85 : Text → Text
  pub sha256 : Text → Text

-- `createPlotProofData`; a distance is an int, as its bit pattern.
unfoldable pub plot_proof_data : PlotEnv → Text → Text → ℕ → Text
plot_proof_data plot challenge key distance =
    plot.sha256 (challenge ++ (b'/' ∷ key ++ (b'/' ∷ signed_decimal distance)))

-- the signature of the miner, under its unmarshalled key
abbrev pub miner_signed : External → Text → Text → Option Text → Bool
miner_signed ext message sig none = false
miner_signed ext message sig (some key) = ext.mldsa_verify key message sig

-- `ValidateProofOfSpace`
unfoldable pub validate_proof_of_space : External → PlotEnv → ProofOfSpace → Bool
validate_proof_of_space ext plot p =
    if plot.verify_solution p.plot_hash p.plot_public_key p.plot_signature p.distance
    then miner_signed ext
        (plot_proof_data plot (plot.ascii85 p.challenge_hash) p.plot_public_key p.distance)
        p.miner_signature (ext.unmarshal_key p.miner_public_key)
    else false
