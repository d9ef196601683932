-- ===== src/Examples/Seeds.antt =====
-- The theorem on the splits of src/training_ground/manifests.py at one seed of the evaluation.
