-- ===== src/Daemon/Runs/Signing.antt =====
-- A signature with the SSH key of the sample store.
use traffic_cone.Common.{◌≡◌, ◌↔◌, arith, [], ◌∷◌, err, ok, codes}
use traffic_cone.Store.Models.{SshAlgorithm}
use traffic_cone.Store.Samples.{sample_crates, sample_store, sample_ssh_key}
use traffic_cone.Daemon.Ssh.{
  SshCrates, answer, sign_ssh_data, sign_ed25519, sign_ecdsa_p256, sign_rsa_ssh,
}
use traffic_cone.Daemon.Ssh.Signatures.{sign_message, read_signature, Short}
use traffic_cone.Daemon.Ssh.Signing.{Signs, read_signature-answer}
use traffic_cone.Daemon.Ssh.Signing.{Signs, read_signature-answer}

-- Every key is an Ed25519 key, and signs with one byte.
abbrev short_ssh : SshCrates
short_ssh = record {
  ed25519 = λ key str. 7 ∷ [];
  ecdsa_p256 = λ key. err [];
  rsa_sha256 = λ key. err [];
  rsa_sha512 = λ key. err [];
}

one_byte : Short short_ssh
unfolding sign_ssh_data sign_ed25519 sign_ecdsa_p256 sign_rsa_ssh
one_byte key str SshAlgorithm.ed25519 flags sig_type sig h = ground arith
one_byte key str SshAlgorithm.ecdsa_p256 flags sig_type sig h = ground arith
one_byte key str SshAlgorithm.rsa4096 flags sig_type sig h = ground arith

read_signature-answer_example :
    (read_signature (
        answer sample_crates short_ssh sample_store
          (sign_message sample_ssh_key.public_key (8 ∷ []) 0))
      ≡ ok (codes "ssh-ed25519", 7 ∷ []))
    ↔ Signs sample_crates short_ssh sample_store sample_ssh_key.public_key
        (8 ∷ [])
        0
        (codes "ssh-ed25519")
        (7 ∷ [])
read_signature-answer_example =
    read_signature-answer sample_crates short_ssh one_byte sample_store sample_ssh_key.public_key
      (8 ∷ []) 0 (codes "ssh-ed25519") (7 ∷ []) (omega arith) (omega arith) (omega arith)
