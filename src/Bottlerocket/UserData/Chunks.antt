-- ===== src/Bottlerocket/UserData/Chunks.antt =====
-- User data that is stored in chunks in AWS Secrets Manager.
use native.Mathlib.Decide.{dec_lt}
use text.Mathlib.TextLemmas.{append_assoc, append-nil, nil-append}
use eks_anywhere_build_tooli.Prelude.{
  ℕ, zero, suc, ◌+◌, ◌≤◌, ◌<◌, String, ◌<>◌, ◌≡◌, refl, ◌∙◌, arith,
}
use eks_anywhere_build_tooli.Prelude.Int.{pos}
use eks_anywhere_build_tooli.Prelude.Outcome.{ok, err}
use eks_anywhere_build_tooli.Prelude.System.{
  ◌>>=◌, History, ◌▹◌, Env, lift, wrapped, attempt, ignore, get_secret, delete_secret, good, bad,
}
use eks_anywhere_build_tooli.Prelude.Number.{decimal}
use eks_anywhere_build_tooli.Bottlerocket.UserData.{
  secret_name, read_chunks, load_user_data_from_secrets_manager, AwsSecretsManagerUserData,
  UserData, Codec,
}

-- What the chunk of an index is called: the prefix, a dash and the digits of the index
abbrev pub chunk_name : String → ℕ → String
chunk_name prefix i = prefix <> "-" <> decimal i

-- The history behind the first `n` rounds of the loop: each chunk is read, then deleted.
abbrev pub after_chunks : String → ℕ → History → History
after_chunks prefix zero h = h
after_chunks prefix (suc n) h =
    after_chunks prefix n h ▹ get_secret (chunk_name prefix n) ▹ delete_secret (chunk_name prefix n)

-- The chunks `i`, `i + 1`, …, so many of them, in one text.
abbrev pub joined : (ℕ → String) → ℕ → ℕ → String
joined chunk i zero = ""
joined chunk i (suc left) = chunk i <> joined chunk (suc i) left

-- The service holds the chunks when each is asked for.
abbrev pub HoldsChunks : Env → String → ℕ → (ℕ → String) → History → Type 0
HoldsChunks env prefix n chunk h =
    (i : ℕ)
    → i < n
    → env (after_chunks prefix i h) (get_secret (chunk_name prefix i)) ≡ good (chunk i)

module _ (env : Env) (prefix : String) (n : ℕ) (chunk : ℕ → String) (h : History) where
  read_chunks_ok :
      HoldsChunks env prefix n chunk h
      → (left i m : ℕ) (binary : String) → i + left ≡ m
      → m ≡ n
      → read_chunks prefix left i binary env (after_chunks prefix i h)
        ≡ (ok (binary <> joined chunk i left), after_chunks prefix m h)
  unfolding read_chunks secret_name ◌>>=◌ lift attempt ignore
  read_chunks_ok holds zero i m binary e f = let g : i ≡ m = omega arith in rw (g, append-nil)
  read_chunks_ok holds (suc left) i m binary e f =
      rw (holds i (omega arith))
        (read_chunks_ok holds left (suc i) m (binary <> chunk i) (omega arith) f ∙ rw append_assoc)

  -- A chunk that cannot be read ends the loop, with the chunks before it read and deleted.
  read_chunks_fails :
      (e : String)
      → HoldsChunks env prefix n chunk h
      → env (after_chunks prefix n h) (get_secret (chunk_name prefix n)) ≡ bad e
      → (left i : ℕ) (binary : String) → i ≤ n
      → n < i + left
      → read_chunks prefix left i binary env (after_chunks prefix i h)
        ≡ (err e, after_chunks prefix n h ▹ get_secret (chunk_name prefix n))
  unfolding read_chunks secret_name ◌>>=◌ lift attempt ignore
  read_chunks_fails e holds fails zero i binary p q = absurd (omega arith)
  read_chunks_fails e holds fails (suc left) i binary p q = elim (dec_lt i n) [
    | yes below ↦
        rw (holds i below)
          (read_chunks_fails e holds fails left (suc i) (binary <> chunk i) below (omega arith))
    | no above ↦ let g : i ≡ n = omega arith in rw (g, fails) refl
  ]

-- What the data in a reference of `n` chunks says.
abbrev pub stored_at : String → ℕ → AwsSecretsManagerUserData
stored_at prefix n = record {
  user_data_type = "AWSSecretsManager";
  user_data_source = record { provider = "AWS"; prefix = prefix; chunks = pos n };
}

-- If the service holds the `n` chunks when each is asked for, and they decompress and decode to the
-- text of user data, that user data is loaded: the secrets of the prefix and the indices 0 to n - 1
-- are asked for in order, each is deleted behind its answer, and nothing else is done.
pub load_user_data_ok :
    (c : Codec) (env : Env) (prefix : String) (n : ℕ) (chunk : ℕ → String) (h : History)
    (encoded text : String) (u : UserData)
    → HoldsChunks env prefix n chunk h
    → c.gunzip (joined chunk 0 n) ≡ ok encoded
    → c.base64_decode encoded ≡ ok text
    → c.decode_user_data text ≡ ok u
    → load_user_data_from_secrets_manager c (stored_at prefix n) env h
      ≡ (ok u, after_chunks prefix n h)
unfolding load_user_data_from_secrets_manager ◌>>=◌ lift wrapped
load_user_data_ok c env prefix n chunk h encoded text u holds g b d =
    rw (read_chunks_ok env prefix n chunk h holds n 0 n "" (omega arith) refl, nil-append, g, b, d)
      refl

-- If the service holds the chunks before chunk `k` of `n`, and `k` cannot be read, loading fails with the service's error, and the chunks
-- before it, which had been read, have been deleted by then.
pub load_user_data_fails :
    (c : Codec) (env : Env) (prefix : String) (n k : ℕ) (chunk : ℕ → String) (h : History)
    (e : String)
    → HoldsChunks env prefix k chunk h
    → env (after_chunks prefix k h) (get_secret (chunk_name prefix k)) ≡ bad e
    → k < n
    → load_user_data_from_secrets_manager c (stored_at prefix n) env h
      ≡ (err e, after_chunks prefix k h ▹ get_secret (chunk_name prefix k))
unfolding load_user_data_from_secrets_manager ◌>>=◌
load_user_data_fails c env prefix n k chunk h e holds fails lt =
    rw (read_chunks_fails env prefix k chunk h e holds fails n 0 "" (omega arith) (omega arith))
      refl
