-- ===== src/Events/Agreement.antt =====
-- An event stored from a candidate has the candidate's fingerprint.
