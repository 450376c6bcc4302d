-- ===== src/Tests/Peers.antt =====
-- The theorems on the proof of work, on messages and on the chain file at concrete inputs.
use summerpoem_cli.Prelude.{
  ℕ, zero, suc, ap, ◌%◌, ◌^◌, ◌≡◌, ◌<◌, refl, arith, Option, none, some, List, [], ◌∷◌, ◌++◌,
  length, replicate,
}
use summerpoem_cli.Prelude.Result.{ok}
use summerpoem_cli.Core.Hash.{zero_hash}
use summerpoem_cli.Pow.{PowContext, gen_dataset, dataset_pages, compute, mine}
use summerpoem_cli.Pow.Dataset.{compute-gen_dataset}
use summerpoem_cli.Pow.Mine.{Found, mine-Found}
use summerpoem_cli.Net.Message.{Message, addr, v4, v6, encode, decode}
use summerpoem_cli.Net.Message.RoundTrip.{decode-encode}
use summerpoem_cli.Node.Store.{save_bytes, load_bytes}
use summerpoem_cli.Node.Store.RoundTrip.{StoredFits, load_bytes-save_bytes}
use summerpoem_cli.Tests.Core.{sample_block, sample_block-BlockFits}
use summerpoem_cli.Tests.Run.{everything}
use summerpoem_cli.Tests.Sample.{digest, params}

-- An extendable output that repeats the length of its input.
abbrev xof : List ℕ → ℕ → List ℕ
xof input n = replicate n (length input % 256)

length-replicate : (n x : ℕ) → length (replicate n x) ≡ n
length-replicate zero x = refl
length-replicate (suc n) x = ap suc (length-replicate n x)

length-xof : (input : List ℕ) (n : ℕ) → length (xof input n) ≡ n
length-xof input n = length-replicate n (length input % 256)

abbrev light : PowContext
light = record {
  params = params.pow;
  epoch = 0;
  seed = zero_hash;
  cache = replicate 16384 3;
  dataset = none;
}

compute-gen_dataset_example :
    compute digest xof (gen_dataset digest xof light) zero_hash 7
    ≡ compute digest xof light zero_hash 7
compute-gen_dataset_example = compute-gen_dataset digest xof length-xof light zero_hash 7 refl

pages_of_light : 0 < dataset_pages light
unfolding dataset_pages
pages_of_light = omega arith

mine-Found_example :
    (r : Option ℕ) × (mine digest xof light zero_hash (2 ^ 250) 5 3 ≡ some r)
    × Found (compute digest xof light zero_hash) (2 ^ 250) 5 3 0 r
mine-Found_example = mine-Found digest xof light zero_hash (2 ^ 250) 5 3 pages_of_light

abbrev peers : Message
peers = addr (
    record { ip = v4 (127 ∷ 0 ∷ 0 ∷ 1 ∷ []); port = 8776 }
    ∷ record { ip = v6 (replicate 15 0 ++ (1 ∷ [])); port = 9000 }
    ∷ [])

decode-encode_example : decode (encode peers ++ (7 ∷ 7 ∷ [])) ≡ ok peers
unfolding everything
decode-encode_example = decode-encode peers (7 ∷ 7 ∷ []) (
  omega arith,
  (
    record { ip_fits = refl; port_fits = omega arith },
    (record { ip_fits = (refl, refl); port_fits = omega arith }, tt),
  ),
)

sample_block-StoredFits : StoredFits sample_block
unfolding everything
sample_block-StoredFits = record { block_fits = sample_block-BlockFits; length_fits = omega arith }

load_bytes-save_bytes_example :
    load_bytes (save_bytes 1 (sample_block ∷ sample_block ∷ []))
    ≡ ok (1, sample_block ∷ sample_block ∷ [])
load_bytes-save_bytes_example =
    load_bytes-save_bytes 1 (sample_block ∷ sample_block ∷ []) (omega arith)
      (sample_block-StoredFits, (sample_block-StoredFits, tt))
