-- ===== src/Worker/Inbox/Fallback.antt =====
-- ufoundry/intent.py and ufoundry/worker.py: the intent that failed detections share.
use ufoundry.Base.{text_eq}
