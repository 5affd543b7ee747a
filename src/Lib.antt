-- ===== src/Lib.antt =====
-- Portable TLS-RA: remote attestation for TLS connections (src/libtlsra.c, src/libcert.c), and PICA, the
-- attestation of the chain of processes that invoked a client (src/libpica_clnt.c, pica_poc/).
--
-- How the program works. The attester daemon measures a client's process and its parents: for each the
-- identifiers, the path, the SHA-256 digest of the executable and those of its shared libraries. It
-- encodes them in CBOR, binds them with a nonce into a TPM2 quote, and sends the quote with its
-- signature, the hash "app-hash" and the processes. The client library verifies the quote, extracts the
-- processes, looks each up in a hash table of the processes of a configuration file, compares the
-- digests, and checks the chain and the users of the processes against the statement of a policy. The
-- TLS library puts a quote and evidence into the certificates of a connection and verifies them in the
-- callbacks that OpenSSL makes.
--
-- Files, and the code that they model:
--   Base, Base/Tests, Base/Lists, Base/Bytes, Base/Words: tests on numbers, lists, byte strings (strcmp,
--     memcmp, strncmp), little-endian words, and Option as the monad of computations that may fault.
--   Sock, Sock/Defs, Sock/Send, Sock/Recv: sock_send and sock_recv of src/libsock.c. What the system
--     calls return is a script with one item for each call.
--   Pica/Types: struct fdigest, procinfo (src/libpica_common.h), inv_array, pica_stmt, pica_policy and
--     the VERIFY_ flags (src/libpica_clnt.h).
--   Pica/Hashtable/Defs: the hash table, myhash, reg_hashtable, find_hashtable, pica_build_hashtable.
--     Refines and Build: the table against a map from paths and kinds.
--   Pica/Digest/Defs: pica_verify_digest and pica_verify_binaries. Libs and Accepts: what they accept.
--   Pica/Check/Defs: pica_check_ichain, pica_check_uids, pica_find_policy. Accepts: what they accept.
--   Pica/Evidence/Types: CBOR items, signatures, attestations and the record External of library calls.
--     Extract: unpack_sercbor, extract_tpm2evidence_bundle, extract_tpm2evidence. Quote:
--     comp_pcr_selection, check_tpm2pcrs, extract_tpm2attest, read_tpm2attest, read_pubkey,
--     tpm_ecdsa_to_der, verify_tpm2quote_sig, hash_extend_sha256, check_apphash. Verify:
--     pica_verify_tpm2all. Bundle, Flags, Pcrs and Attested: what they extract and accept.
--   Pica/Procinfo/Encode: mycbor_sha256_binaries of tpm2/libcbor.c. Defs: extract_procinfo and
--     pica_extract_pinfo of src/libpica_clnt.c. Roundtrip: both together.
--     Chain: the walk of mycbor_pack_procchain to the parents of a process.
--   Pica/Config/Layout: the structures of the configuration file as bytes. Write: reg_config and
--     pica_reg_config. Build: build_conf and pica_read_config. Codec, Placed, Ranges, Written,
--     Relocated, Roundtrip and Registered: what is written, and that it is read back.
--   Pica/Policy/Json: the values that json-c hands out. Parse: parse_sid to parse_invchain,
--     json_statement, json_version and pica_json_parse. Read: pica_read_policy. Described, Statement,
--     Whole, Loaded and Unversioned: what a JSON value describes, and what is read from it.
--   Pica/Poc/Defs: main of pica_poc/Enclave/main.c. Flags, Accepts and Trusted: what
--     stands behind its success. Effects: what it does with the effect of a statement.
--   Tls/Verify: verify_contents and verify_cert of src/libcert.c, verify, client_verify and
--     server_verify of src/libtlsra.c. Handshake: on_client_hello, on_client_cert and the extensions of
--     make_x509cert. Accepts: which peers are accepted, and what is presented. Pkhash: the entry for a
--     key, made by make_cbor_pkhash_entry of src/libtpm2.c and compared by
--     compare_cert_pubkey_against_cbor_claim_hash of src/libintel.c. Sgx: the claims and the nonce in
--     extract_cbor_evidence_and_compare_hash, and verify_SGX_evidence of src/libintel.c, which is the
--     function of the first entry of the verification table, and make_cbor_tpm2_claims_from_enclave of
--     src/libtpm2.c. Results, Attests, Rounds and Sound: which evidence of an enclave is accepted, and what it
--     has passed. Peers: what stands behind the evidence of a peer that a server accepts.
--   Measure/Defs: the cache of digests of src/libmeasure.c, find_hashentry and sha256_file. Libs:
--     sha256_libs and sha256_pid. Cache: the cache against a map from paths to digests. Reads and Listed:
--     the list of the libraries. Stale: what the cache does to later measurements. Status: cred_pid of
--     tpm2/libprocchain.c. Digits and Creds: what it reads.
--   Daemon/Defs: pica_request_measure of src/libpica_clnt.c, readpacket, reply_pica and the answer to
--     TPMD_REQ_PICA of tpm2/tpmdaemon.c. Exchange: a request from end to end. Quote:
--     make_tpm2_quote_with_pid and make_tpm2_pica. Serve: reply_attest, the loops of tpmddaemon over
--     packets and connections, and ecall_unseal of tpm2/Enclave/enclave.c. Answers and Served: what the
--     daemon answers. Tpm: pcr_select, make_sig_scheme and make_tpm2_quote of tpm2/libquote.c. Selects and Quotes: which
--     registers are quoted, and what the result tells.
--   Files/Defs: the whole-file functions of src/libio.c, on the host and in the enclave. Config: the
--     ends of reg_config and pica_read_config of src/libpica_clnt.c, which seal and unseal. Sealed: what a
--     configuration in a sealed file gives back.
--   Web/Host: read_exact, write_exact and main of web/native-messaging-echo/native_host/echo_host.c.
--     Reads, Echoes and Frames: what is read, and what is written.
--   Tests: runs of the models, and the theorems at concrete inputs.
--
-- How the code is modelled. Numbers are natural numbers; sizes and identifiers wrap at the width of
-- their C types where the code lets them, and -1 is the word with all bits set. A count in a structure
-- is a field beside the list of what can be read behind its pointer; counts are not negative. A result
-- of type Option is `none` where the code would read through NULL or an uninitialised pointer, or past
-- the end of an array; where the code itself returns NULL or -1, an inner Option or a Bool says so.
-- Loops run on the number of rounds left, so that they end; the loops over sockets end with their script,
-- and `none` then means that the loop is still running. The native messaging host has a round for each byte
-- of its input and one more, and a round takes five bytes at least. Allocation is taken to succeed. Output on the
-- console is left out. What uninitialised memory holds is a parameter (PolicyHeap, heap, stack). A pointer
-- that is written to the configuration file is a number, which a parameter gives. A copy in the cache of
-- digests is the bytes of its allocation, as it may lack its NUL.
--
-- Third-party code is a parameter: MurmurHash3 (murmur), libcbor, TSS2 and OpenSSL (the records
-- External and Openssl), and what the files and the uninitialised variables hold (Surroundings). The
-- functions of the certificate's verification table are parameters of the table, which holds pointers
-- to them; the evidence that make_certificate_evidence makes is a parameter of the callbacks.
--
-- The file system is a parameter too: what open, fstat and read find of a file (FileCalls), the target of
-- a link, the lines of /proc/<pid>/maps as sscanf reads them (MapsLine), the lines of the status file, and
-- the bytes of the configuration and of the policy. The parser of json-c is a parameter that gives a JSON value.
--
-- Not modelled: the calls of TSS2, the OCALL bridges and the replacements for C library
-- functions of src/libio.c, the other functions of src/libintel.c that are derived from the Intel SGX
-- SDK and those that quote with it, the creation of keys and certificates, command lines, and the
-- samples and tests.

pub mod Base
pub mod Sock
pub mod Pica
pub mod Tls
pub mod Measure
pub mod Daemon
pub mod Files
pub mod Web
mod Tests
