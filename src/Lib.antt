-- ===== src/Lib.antt =====
-- asignify signs, verifies and encrypts files. The library is libasignify, and the command in src
-- a thin front of it. To sign, libasignify/sign.c loads a secret key, collects files with a digest
-- or a size each, prints a line for every one of them and writes the signed text. To verify,
-- libasignify/verify.c checks the signature of such a text, parses its lines into a table from file
-- names to sizes and digests, and compares files with it. Keys are read by libasignify/databuf.c
-- and libasignify/pubkey.c, made and written by libasignify/generate.c; a secret key may be
-- encrypted with a password by way of libasignify/pbkdf2.c. To encrypt, libasignify/encrypt.c seals
-- a session key for a public key, signs the file and writes it through ChaCha; to decrypt, it checks
-- the signature first. libasignify/util.c has what they share.
--
-- The development follows these parts:
--   Base            names and lemmas that all files share: tests, lists, texts, bytes.
--   Libc            what is used of the C library: the classes of bytes, strtoul and printf of
--                   decimal numbers (Libc/Decimal), getline (Libc/Lines).
--   Util            hex2bin and bin2hex (Util/Hex), the kinds of digest and asignify_digest_fd
--                   (Util/Digest), the error codes (Util/Errors), xopen (Util/Disk).
--   Data            the structures of libasignify/asignify_internal.h.
--   Verify          asignify_verify_parse_digest (Verify/Digest), the table of files
--                   (Verify/Files), and asignify_verify_parse_files as a state machine whose state
--                   holds the function's local variables and one step is a pass of its loop
--                   (Verify/Machine), asignify_verify_file (Verify/Check), and the context with
--                   asignify_verify_load_pubkey and asignify_verify_load_signature
--                   (Verify/Context); its calls in any order are the relation Reached.
--   Sign            asignify_sign_add_file (Sign/Files), the lines that
--                   asignify_sign_write_signature prints (Sign/Lines), that function and
--                   asignify_sign_load_privkey (Sign/Context).
--   SignVerify      the two together: what is printed and what is parsed of it.
--   Crypto          pkcs5_pbkdf2 (Crypto/Pbkdf2), the encryption of a key (Crypto/Xor), and as
--                   parameters base64 (Crypto/Base64), Ed25519 (Crypto/Ed25519), crypto_box
--                   (Crypto/Box) and ChaCha (Crypto/Chacha).
--   Keys            the table of fields and asignify_private_data_parse_value (Keys/Fields),
--                   asignify_private_data_parse_line as a state machine (Keys/Line),
--                   asignify_private_data_load (Keys/Load), asignify_privkey_write and
--                   asignify_encrypt_privkey (Keys/Write), and of public keys and signatures
--                   asignify_public_data_load, asignify_pubkey_write and
--                   asignify_signature_write (Keys/Public), asignify_pubkey_load and
--                   asignify_signature_load with the three formats of keys (Keys/Public/Load),
--                   asignify_private_data_sign with asignify_pubkey_check_signature
--                   (Keys/Signature), asignify_ssh_read_string (Keys/Ssh) and
--                   asignify_ssh_privkey_load (Keys/Ssh/Private).
--   Generate        asignify_generate, asignify_generate_pubkey and asignify_privkey_from_ssh.
--   Encrypt         the context with its two keys (Encrypt), asignify_encrypt_crypt_file
--                   (Encrypt/Crypt) and asignify_encrypt_decrypt_file (Encrypt/Decrypt).
--   Cli             the commands of src/verify.c (Cli/Check), src/sign.c (Cli/Sign),
--                   src/generate.c (Cli/Generate) and src/encrypt.c (Cli/Encrypt), and main of
--                   src/asignify.c (Cli/Main); Cli/SignCheck puts `sign` and `check` together.
--   Tests           runs at fixed inputs.
--
-- A buffer with its length is a list of bytes, a pointer into it the bytes before and behind, and a
-- null pointer is none. Numbers are natural ones, with the bound of the C type written out where it
-- is reached: strtoul and strtoumax report a range error above 2^64 - 1, an unsigned int takes the
-- value modulo 2^32, the length of a key of BLAKE2b is taken modulo 2^8. A return of false, a
-- null pointer that is read, a call of abort and bytes that were never written are results of
-- their own. Memory does not run out.
--
-- The loops over a text run on a number of passes. Both parsers are given five for each byte and a
-- few more, since no state is kept for more than four passes without the position moving on; for
-- asignify_private_data_parse_line that is always enough. asignify_verify_parse_files can stand still
-- for ever, and its model then returns none. The loop over the blocks of pkcs5_pbkdf2 is
-- given one round for each byte of the key, and each takes at least one.
--
-- Parameters are the hash functions, which are copies of other projects: BLAKE2b as a function of a
-- key and an input with 64 bytes of output, and the incremental interfaces of SHA-256, SHA-512 and
-- BLAKE2b, for which hashing a text in pieces is hashing it whole. Base64 is an encoder whose texts have
-- neither spaces nor colons, with a decoder that gives the bytes back in front of a colon or the
-- end of a line. Ed25519 is a pair of functions that sign and verify, where what is signed is
-- verified with the public half of the key. The hash table of libasignify/khash.h and
-- the vectors of libasignify/kvec.h are lists.
--
-- crypto_box opens with the one pair of keys what was sealed with the other, and ChaCha gives back
-- what it was given twice, whatever the pieces are.
--
-- A disk is a function from names to files, and does not change between the calls. What a function
-- reads or opens is otherwise an argument: the lines of a file or none if it cannot be opened, whether
-- a file can be opened for writing, the bytes that the random source gives, the password that the
-- callback returns. `junk` is what fresh memory holds where the code reads fields that it never set,
-- and `beyond` what stands in memory behind a buffer that is read past its end. A file that is read
-- twice is two streams, which need not agree.
--
-- Not modelled are the copies of other projects (libasignify/tweetnacl.c, libasignify/sha2.c,
-- libasignify/blake2b-ref.c, libasignify/chacha.c, libasignify/b64_pton.c, libasignify/khash.h,
-- libasignify/kvec.h and src/readpassphrase_compat.h), the allocation, freeing and clearing of memory, the
-- system's randomness and files, and what is printed. getopt_long and readpassphrase are taken by
-- their results. Of a call of asignify_encrypt_crypt_file or asignify_encrypt_decrypt_file that fails
-- behind the header, what it leaves in the output file is not described.
pub mod Base
pub mod Cli
pub mod Crypto
pub mod Data
pub mod Encrypt
pub mod Generate
pub mod Keys
pub mod Libc
pub mod Sign
pub mod SignVerify
pub mod Tests
pub mod Util
pub mod Verify
