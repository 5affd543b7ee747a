-- ===== src/Files/Defs.antt =====
-- The file functions of src/libio.c: those of the host, and `file_seal_write` and `file_seal_read_close` of the enclave
-- (SGXENV), over what the system calls return. Sizes are 64-bit words, so the -1 of a failed call is 2 ^ 64 - 1.
use portable_tls_ra.Base.{
  ℕ, ◌%◌, Bool, true, false, not, Option, none, some, List, [], length, take, ltb, ◌==◌,
  if◌then◌else◌,
}
use portable_tls_ra.Sock.Defs.{
  Written, written_size, written_bytes, Received, received_size, received_bytes, size_mod, store_at,
}

-- `read` into `buf`: the result as a `size_t`, and the buffer.
unfoldable pub file_read_close : Received → List ℕ → ℕ × List ℕ
unfolding store_at
file_read_close r buf = (received_size r, store_at 0 (received_bytes r) buf)

-- A whole file into a buffer of `bufsz` bytes. The first argument is the end of the file, if it can be opened; a file
-- that is larger than the buffer is not read, and stays open.
unfoldable pub file_read_file : Option ℕ → Received → List ℕ → ℕ → ℕ × List ℕ
unfolding file_read_close
file_read_file none r buf bufsz = (0, buf)
file_read_file (some len) r buf bufsz = if ltb bufsz len then (0, buf) else file_read_close r buf

-- Whether the file can be opened, and `*sz`.
unfoldable pub file_size : Option ℕ → Bool × ℕ
file_size none = (false, 0)
file_size (some off) = (true, off % size_mod)

-- The result of the write functions: -1 is `none`. Beside it, what goes to the file.
unfoldable pub host_seal_write : List ℕ → Written → Option ℕ × List ℕ
host_seal_write buf w = (some (if written_size w == length buf then 1 else 0), written_bytes w buf)

-- The calls of the SGX SDK: `sgx_seal_data`, `sgx_get_encrypt_txt_len` and `sgx_unseal_data`.
pub record SgxSeal : Type 0 where
  pub seal_data : List ℕ → Option (List ℕ)
  pub text_len : List ℕ → ℕ
  pub unseal_data : List ℕ → Option (List ℕ)

unfoldable pub file_seal_write : SgxSeal → List ℕ → Written → Option ℕ × List ℕ
file_seal_write sgx buf w = elim (sgx.seal_data buf) [
  | none ↦ (none, [])
  | some encbuf ↦ (some (if written_size w == length encbuf then 1 else 0), written_bytes w encbuf)
]

-- `*o_buf` after the call.
pub data OutBuf : Type 0 where
  unset : OutBuf
  null : OutBuf
  points : List ℕ → OutBuf

unfoldable pub host_seal_read_close : Received → List ℕ → ℕ × OutBuf
unfolding file_read_close
host_seal_read_close r heap = let (rsz, buf) = file_read_close r heap in (rsz, points buf)

-- The result and `*o_buf`, for a memory from `malloc` of `enc_sz` bytes. Where the text is not unsealed, its length is
-- returned, and `*o_buf` is left alone.
unfoldable pub file_seal_read_close : SgxSeal → Received → List ℕ → ℕ → ℕ × OutBuf
file_seal_read_close sgx r heap enc_sz =
    let (rsz, encp) = file_read_close r (take enc_sz heap) in
    if not (rsz == enc_sz) then (0, null) else elim (sgx.unseal_data encp) [
      | none ↦ (sgx.text_len encp, unset)
      | some decp ↦ (length decp, points decp)
    ]

-- What the file holds after a write from its start: `file_open` does not truncate it.
unfoldable pub written_to : List ℕ → List ℕ → List ℕ
unfolding store_at
written_to old bytes = store_at 0 bytes old
