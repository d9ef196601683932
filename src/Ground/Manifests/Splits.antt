-- ===== src/Ground/Manifests/Splits.antt =====
-- The splits of src/training_ground/manifests.py and the seeds that they make of those asked for.
