-- ===== src/Attestation/Shifted.antt =====
-- What the hash of a directory of backend/attestation.py tells apart.
