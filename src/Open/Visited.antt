-- ===== src/Open/Visited.antt =====
-- An open as the kernel makes it: the file was looked up before, which caches its access.
use sigfs.Queue.{Queue}
use sigfs.Channel
use sigfs.FileSystem
use sigfs.FileSystem.{FileSystem, get_access}
use sigfs.FileSystem.Granted.{Granted}
