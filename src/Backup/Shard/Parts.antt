-- ===== src/Backup/Shard/Parts.antt =====
-- What a pull of stored parts writes.
use bastion_hub.Prelude.{
  ℕ, suc, ◌+◌, ◌≡◌, refl, sym, ap, ◌∙◌, arith, List, [], ◌∷◌, ◌++◌, append_assoc, append-nil,
  length, Text, codes, decimal, Option, none, some,
}
use bastion_hub.Backup.Shard.{
  ShardManifest, Raw, fetched, refused, part_name, manifest_name, check_size, pull_part, pull_parts,
  shard_pull,
}

abbrev pub joined : List Text → Text
joined [] = []
joined (c ∷ chunks) = c ++ joined chunks

-- The parts from the i-th on hold these chunks.
abbrev pub Stored : (Text → Raw) → Text → ℕ → List Text → Type 0
Stored get_raw name i [] = Unit
Stored get_raw name i (c ∷ chunks) =
    (get_raw (part_name name i) ≡ fetched c) × Stored get_raw name (suc i) chunks

module _ (decode : Text → Option ShardManifest) (get_raw : Text → Raw) where
  pull_parts-fetched :
      (name c : Text) (size i left : ℕ) (out : Text)
      → get_raw (part_name name i) ≡ fetched c
      → pull_parts decode get_raw name size (suc left) i out
        ≡ pull_parts decode get_raw name size left (suc i) (out ++ c)
  unfolding pull_parts pull_part
  pull_parts-fetched name c size i left out e = rw e refl

  pull_parts-Stored :
      (name : Text) (size i left : ℕ) (out : Text) (chunks : List Text)
      → Stored get_raw name i chunks
      → pull_parts decode get_raw name size (length chunks + left) i out
        ≡ pull_parts decode get_raw name size left (i + length chunks) (out ++ joined chunks)
  pull_parts-Stored name size i left out [] stored =
      let none_left : 0 + left ≡ left = omega arith in
      let there : i + 0 ≡ i = omega arith in rw (none_left, there, append-nil out) refl
  pull_parts-Stored name size i left out (c ∷ chunks) stored =
      let more : suc (length chunks) + left ≡ suc (length chunks + left) = omega arith in
      let there : i + suc (length chunks) ≡ suc i + length chunks = omega arith in
      rw (more, there, sym (append_assoc out c (joined chunks)))
        (pull_parts-fetched name c size i (length chunks + left) out stored.0
          ∙ pull_parts-Stored name size (suc i) left (out ++ c) chunks stored.1)

  -- An archive whose manifest and parts are all there is pulled as the parts put together.
  pub shard_pull-joined :
      (name bytes : Text) (chunks : List Text) (file : Option Text)
      → get_raw (manifest_name name) ≡ fetched bytes
      → decode bytes ≡ some (record { shards = length chunks; size = length (joined chunks) })
      → Stored get_raw name 0 chunks
      → shard_pull decode get_raw name file ≡ (some (joined chunks), none)
  unfolding shard_pull check_size pull_parts
  shard_pull-joined name bytes chunks file manifest decoded stored =
      let whole : check_size (length (joined chunks)) (joined chunks)
          ≡ (some (joined chunks), none) =
        ground arith in
      let all_parts : length chunks ≡ length chunks + 0 = omega arith in
      rw (manifest, decoded)
        (ap (λ n. pull_parts decode get_raw name (length (joined chunks)) n 0 []) all_parts
          ∙ pull_parts-Stored name (length (joined chunks)) 0 0 [] chunks stored
          ∙ whole)

  pull_parts-refused :
      (name e : Text) (size i left : ℕ) (out : Text)
      → get_raw (part_name name i) ≡ refused e
      → pull_parts decode get_raw name size (suc left) i out
        ≡ (some out, some (codes "shard pull part " ++ decimal i ++ codes ": " ++ e))
  unfolding pull_parts pull_part
  pull_parts-refused name e size i left out gone = rw gone refl

  -- A pull that meets a part that is refused leaves the parts before it.
  pub shard_pull-refused :
      (name bytes e : Text) (chunks : List Text) (more size : ℕ) (file : Option Text)
      → get_raw (manifest_name name) ≡ fetched bytes
      → decode bytes ≡ some (record { shards = length chunks + suc more; size = size })
      → Stored get_raw name 0 chunks
      → get_raw (part_name name (length chunks)) ≡ refused e
      → shard_pull decode get_raw name file ≡ (
        some (joined chunks),
        some (codes "shard pull part " ++ decimal (length chunks) ++ codes ": " ++ e),
      )
  unfolding shard_pull pull_parts pull_part
  shard_pull-refused name bytes e chunks more size file manifest decoded stored gone =
      let there : 0 + length chunks ≡ length chunks = omega arith in
      rw (manifest, decoded)
        (pull_parts-Stored name size 0 (suc more) [] chunks stored
          ∙ rw there (pull_parts-refused name e size (length chunks) more (joined chunks) gone))
